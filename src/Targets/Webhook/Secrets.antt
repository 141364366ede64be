-- ===== src/Targets/Webhook/Secrets.antt =====
-- targets/webhook/webhook.go: what the text of the error of SendResult tells.
use notifykit.Base.{
  ◌≡◌, refl, ◌∙◌, ℤ, pos, true, false, ◌||◌, Option, none, some, [], ◌∷◌, arith, ltb_ℤ, leb_ℤ,
  Bool-cases, inl, inr,
}
use notifykit.Text.{Text, bytes, text_or}
use notifykit.Notify.Error.{Error, DeliveryResult, find_as, redacted_error}
use notifykit.Notify.Error.Marks.{is_some, transport, is_permanent, is_transport}
use notifykit.Notify.Error.Texts.{Formats, error_text}
use notifykit.Notify.Result.{Result, ok, err, Result-cases}
use notifykit.Targets.Webhook.Errors.{safe_webhook_error, response_error, as_redacted, as_url_error}
use notifykit.Targets.Webhook.Sending.{
  Webhook, Http, Response, Request, post, post_response, prepare, send_prepared, send_result,
  apply_defaults, limited, respond, reject, received, validate_endpoint,
}

-- Client.Do documents that its errors are of the type url.Error; no error of net/http is a redacted
-- one.
abbrev pub HasUrlErrors : {Client World : Type 0} → Http Client World → Type 0
HasUrlErrors {Client} {World} http =
    (c : Client) (q : Request) (w : World) (e : Error) (w' : World)
    → http.do_request c q w ≡ (err e, w')
    → (is_some (find_as as_redacted e) ≡ false) × (is_some (find_as as_url_error e) ≡ true)

module _ (fmt : Formats) where
  transport-text :
      (e : Error)
      → (x : Error) × (transport (some e) ≡ some x) × (error_text fmt x ≡ error_text fmt e)
  unfolding transport error_text
  transport-text e = elim (Bool-cases (is_permanent (some e) || is_transport (some e))) [
    | inl p ↦ rw (p, transport) (e, refl, refl)
    | inr p ↦ rw (p, transport) (_, refl, refl)
  ]

  safe-text :
      (e : Error)
      → is_some (find_as as_redacted e) ≡ false
      → is_some (find_as as_url_error e) ≡ true
      → error_text fmt (safe_webhook_error e) ≡ bytes "webhook URL or request failed"
  unfolding safe_webhook_error error_text
  safe-text e h k = rw (h, k) refl

  module _ {Client World Data : Type 0} (http : Http Client World) (t : Webhook Client Data)
      (values : Text → Data) where
    -- What the text of the error tells. The call took the world `w`.
    pub data Tells (w : World) : DeliveryResult × Option Error × World → Type 0 where
      rejected :
          (e : Error)
          → prepare http (apply_defaults http t) values ≡ err e
          → Tells w (reject (safe_webhook_error e) w)
      unreachable :
          (r : DeliveryResult) (e : Error) (w' : World)
          → error_text fmt e ≡ bytes "webhook URL or request failed"
          → Tells w (r, some e, w')
      unread :
          (r : DeliveryResult) (e : Error) (w' : World)
          → error_text fmt e ≡ bytes "webhook response read failed"
          → Tells w (r, some e, w')
      refused :
          (r : DeliveryResult) (e : Error) (w' : World)
          → error_text fmt e
            ≡ fmt.sprintf
                (bytes "webhook %q delivery failed: %s")
                (text_or t.name (bytes "webhook") ∷ r.status ∷ [])
          → Tells w (r, some e, w')
      delivered : (r : DeliveryResult) (w' : World) → Tells w (r, none, w')

    respond-Tells :
        (limit retry : ℤ) (text : Text) (fault : Option Error) (resp : Response) (w w' : World)
        → Tells w (limited limit (respond t.name resp retry text fault w'))
    unfolding respond response_error error_text
    respond-Tells limit retry text (some e) resp w w' =
        let (x, k, l) = transport-text (redacted_error e (bytes "webhook response read failed")) in
        rw k (Tells.unread _ x w' l)
    respond-Tells limit retry text none resp w w' =
        elim (Bool-cases (ltb_ℤ resp.status_code (pos 200) || leb_ℤ (pos 300) resp.status_code)) [
          | inl bad ↦ rw bad (Tells.refused _ _ w' refl)
          | inr good ↦ rw good (Tells.delivered _ w')
        ]

    received-Tells :
        HasUrlErrors http
        → (c : Client) (q : Request) (w : World) (a : Result Response × World)
        → http.do_request c q w ≡ a
        → Tells w (
            limited
              (apply_defaults http t).response_body_limit
              (received http (apply_defaults http t) a))
    unfolding received post_response apply_defaults
    received-Tells urls c q w (err e, w') h =
        let (x, k, l) = transport-text (safe_webhook_error e) in
        let (plain, url) = urls c q w e w' h in
        rw k (Tells.unreachable _ x w' (l ∙ safe-text e plain url))
    received-Tells urls c q w (ok resp, w') h = respond-Tells _ _ _ _ resp w w'

    prepare-new_request :
        (d : Webhook Client Data) (body : Text)
        → prepare http d values ≡ ok body
        → (parsed : Text × Text) × (http.new_request d.method d.url ≡ ok parsed)
    unfolding prepare validate_endpoint
    prepare-new_request d body h = ground arith

    -- With a client whose errors are of the type url.Error, the text of the error of SendResult is one
    -- of three, made of no more than the target's name and the status of the response, unless the
    -- configuration is refused before a request is made.
    pub send_result-Tells :
        HasUrlErrors http → (w : World) → Tells w (send_result http false (some t) values w)
    unfolding send_result send_prepared post
    send_result-Tells urls w = elim (Result-cases (prepare http (apply_defaults http t) values)) [
      | inl (e, bad) ↦ rw (bad, send_prepared) (Tells.rejected e bad)
      | inr (body, good) ↦
          let (parsed, found) = prepare-new_request (apply_defaults http t) body good in
          rw (good, send_prepared, found, post) (received-Tells urls _ _ w _ refl)
    ]
