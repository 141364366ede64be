-- ===== src/Targets/Webhook/Outcome.antt =====
-- targets/webhook/webhook.go: what the result and the error of SendResult mean.
use notifykit.Base.{
  ◌≡◌, refl, sym, ◌∙◌, ℤ, pos, ◌≤ℤ◌, ◌<ℤ◌, ◌⊎◌, Bool, true, false, ◌||◌, Option, none, some, [],
  arith, ltb_ℤ, leb_ℤ, Bool-cases, inl, inr,
}
use notifykit.Text.{Text, bytes, text_or}
use notifykit.Notify.Error.{Error, DeliveryResult, redacted_error, find_as, transport_error}
use notifykit.Notify.Error.Marks.{transport, is_permanent, is_transport}
use notifykit.Notify.Error.MarkLaws.{permanent-some}
use notifykit.Notify.Retry.{zero_result}
use notifykit.Targets.Webhook.Body.{truncate_body, read_fault}
use notifykit.Targets.Webhook.Errors.{safe_webhook_error, safe_webhook_error_laws, response_error}
use notifykit.Notify.Result.{Result, ok, err, Result-cases}
use notifykit.Targets.Webhook.Sending.{
  Webhook, Http, Response, Request, post, post_response, prepare, send_prepared, send_result,
  apply_defaults, limited, respond, reject, received, request_of,
}

-- The error is permanent, or a transport error.
abbrev pub IsLoss : Error → Type 0
IsLoss e = (is_permanent (some e) ≡ true) ⊎ (is_transport (some e) ≡ true)

-- The error is permanent where its cause is, and otherwise a transport error.
abbrev pub IsLossOf : Error → Error → Type 0
IsLossOf cause e =
    ((is_permanent (some cause) ≡ true) × (is_permanent (some e) ≡ true))
    ⊎ ((is_permanent (some cause) ≡ false)
        × (is_permanent (some e) ≡ false)
        × (is_transport (some e) ≡ true))

pub IsLossOf-IsLoss : (cause e : Error) → IsLossOf cause e → IsLoss e
IsLossOf-IsLoss cause e (inl (p, k)) = inl k
IsLossOf-IsLoss cause e (inr (p, n, k)) = inr k

abbrev pub IsSuccess : ℤ → Type 0
IsSuccess code = (pos 200 ≤ℤ code) × (code <ℤ pos 300)

kept :
    (e : Error)
    → (is_permanent (some e) || is_transport (some e)) ≡ true
    → transport (some e) ≡ some e
unfolding transport
kept e h = rw (h, transport) refl

added :
    (e : Error)
    → (is_permanent (some e) || is_transport (some e)) ≡ false
    → transport (some e) ≡ some (transport_error e)
unfolding transport
added e h = rw (h, transport) refl

fresh-IsLossOf : (e : Error) → is_permanent (some e) ≡ false → IsLossOf e (transport_error e)
unfolding is_permanent is_transport find_as
fresh-IsLossOf e p = inr (p, p, rw p refl)

pub transport-some : (e : Error) → (x : Error) × (transport (some e) ≡ some x) × IsLossOf e x
transport-some e = elim (Bool-cases (is_permanent (some e))) [
  | inl p ↦ (e, kept e (ground (arith, p)), inl (p, p))
  | inr p ↦ elim (Bool-cases (is_transport (some e))) [
    | inl k ↦ (e, kept e (ground (arith, p, k)), inr (p, p, k))
    | inr k ↦ (transport_error e, added e (ground (arith, p, k)), fresh-IsLossOf e p)
  ]
]

-- A redacted error has the marks of its cause.
loss-redacted :
    (cause e : Error) (text : Text) → IsLossOf (redacted_error cause text) e → IsLossOf cause e
unfolding is_permanent find_as
loss-redacted cause e text l = l

loss-safe : (cause e : Error) → IsLossOf (safe_webhook_error cause) e → IsLossOf cause e
loss-safe cause e l =
    let same = (safe_webhook_error_laws cause).1 in
    elim l [ inl (p, k) ↦ inl (sym same ∙ p, k) | inr (p, n, k) ↦ inr (sym same ∙ p, n, k) ]

plain-message :
    (target status : Text)
    → (is_permanent (some (response_error target status)) ≡ false)
      × (is_transport (some (response_error target status)) ≡ false)
unfolding response_error is_permanent is_transport find_as
plain-message target status = (refl, refl)

truncate-nil : (limit : ℤ) → truncate_body [] limit ≡ []
unfolding truncate_body
truncate-nil limit = ground arith

pub range-IsSuccess :
    (code : ℤ) → (ltb_ℤ code (pos 200) || leb_ℤ (pos 300) code) ≡ false → IsSuccess code
range-IsSuccess code h = ground arith

failure_range :
    (code : ℤ)
    → (ltb_ℤ code (pos 200) || leb_ℤ (pos 300) code) ≡ true
    → (code <ℤ pos 200) ⊎ (pos 300 ≤ℤ code)
failure_range code h = ground arith

module _ {Client World : Type 0} (http : Http Client World) where
  -- The ways in which SendResult ends from the world `w`.
  pub data Sent (w : World) : DeliveryResult × Option Error × World → Type 0 where
    -- refused before a request is made
    rejected : (e : Error) → is_permanent (some e) ≡ true → Sent w (zero_result, some e, w)
    -- no response
    lost :
        (c : Client) (q : Request) (r : DeliveryResult) (cause e : Error) (w' : World)
        → http.do_request c q w ≡ (err cause, w')
        → r.status_code ≡ pos 0
        → IsLossOf cause e
        → Sent w (r, some e, w')
    -- a response whose body could not be read
    unread :
        (c : Client) (q : Request) (resp : Response) (r : DeliveryResult) (cause e : Error)
        (w' : World)
        → http.do_request c q w ≡ (ok resp, w')
        → r.status_code ≡ resp.status_code
        → resp.body.fault ≡ some cause
        → IsLossOf cause e
        → Sent w (r, some e, w')
    -- a response that is not a success
    refused :
        (c : Client) (q : Request) (resp : Response) (r : DeliveryResult) (e : Error) (w' : World)
        → http.do_request c q w ≡ (ok resp, w')
        → r.status_code ≡ resp.status_code
        → (resp.status_code <ℤ pos 200) ⊎ (pos 300 ≤ℤ resp.status_code)
        → is_permanent (some e) ≡ false
        → is_transport (some e) ≡ false
        → Sent w (r, some e, w')
    delivered :
        (c : Client) (q : Request) (resp : Response) (r : DeliveryResult) (w' : World)
        → http.do_request c q w ≡ (ok resp, w')
        → r.status_code ≡ resp.status_code
        → IsSuccess resp.status_code
        → Sent w (r, none, w')

  respond-Sent :
      (name : Text) (limit retry : ℤ) (text : Text) (fault : Option Error) (c : Client)
      (q : Request) (resp : Response) (w w' : World)
      → http.do_request c q w ≡ (ok resp, w')
      → ((e : Error) → fault ≡ some e → resp.body.fault ≡ some e)
      → Sent w (limited limit (respond name resp retry text fault w'))
  unfolding respond
  respond-Sent name limit retry text (some e) c q resp w w' h b =
      let (x, k, l) = transport-some (redacted_error e (bytes "webhook response read failed")) in
      rw k (Sent.unread c q resp _ e x w' h refl (b e refl) (loss-redacted e x _ l))
  respond-Sent name limit retry text none c q resp w w' h b =
      elim (Bool-cases (ltb_ℤ resp.status_code (pos 200) || leb_ℤ (pos 300) resp.status_code)) [
        | inl bad ↦
            let p = plain-message (text_or name (bytes "webhook")) resp.status in
            rw bad (Sent.refused c q resp _ _ w' h refl (failure_range _ bad) p.0 p.1)
        | inr good ↦ rw good (Sent.delivered c q resp _ w' h refl (range-IsSuccess _ good))
      ]

  reject-Sent : (e : Error) (w : World) → Sent w (reject e w)
  reject-Sent e w = let (x, k, p) = permanent-some e in rw k (Sent.rejected x p)

module _ {Client World Data : Type 0} (http : Http Client World) where
  answer-Sent :
      (t : Webhook Client Data) (c : Client) (q : Request) (w : World) (a : Result Response × World)
      → http.do_request c q w ≡ a
      → Sent http w (limited t.response_body_limit (received http t a))
  unfolding received post_response
  answer-Sent t c q w (err e, w') h =
      let (x, k, l) = transport-some (safe_webhook_error e) in
      rw k (Sent.lost c q _ e x w' h refl (loss-safe e x l))
  answer-Sent t c q w (ok resp, w') h =
      respond-Sent http t.name _ _ _ _ c q resp w w' h (read_fault resp.body t.response_body_limit)

  post-Sent :
      (t : Webhook Client Data) (c : Client) (body : Text) (w : World)
      → Sent http w (limited t.response_body_limit (post http t c body w))
  unfolding post
  post-Sent t c body w = elim (Result-cases (http.new_request t.method t.url)) [
    | inl (e, h) ↦
        let (x, k, p) = permanent-some (safe_webhook_error e) in
        rw (h, post, k, truncate-nil t.response_body_limit) (Sent.rejected x p)
    | inr (parsed, h) ↦ rw (h, post) (answer-Sent t c (request_of http t body) w _ refl)
  ]

  send_prepared-Sent :
      (t : Webhook Client Data) (values : Text → Data) (w : World)
      → Sent http w (send_prepared http t values w)
  unfolding send_prepared
  send_prepared-Sent t values w = elim (Result-cases (prepare http t values)) [
    | inl (e, h) ↦ rw (h, send_prepared) (reject-Sent http _ w)
    | inr (body, h) ↦ rw (h, send_prepared) (post-Sent t _ body w)
  ]

  -- SendResult ends in one of five ways: it refuses before a request is made, with a permanent error
  -- and without a call of Client.Do; Client.Do gives an error and no response, or the body of its
  -- response cannot be read, and the returned error is permanent where the error of Client.Do or of
  -- the read is, and else a transport error and not permanent; the response has the returned status
  -- code, outside of 200 to 299, and the error has neither mark; or that code is within, and there is
  -- no error.
  pub send_result-Sent :
      (nil_ctx : Bool) (t : Option (Webhook Client Data)) (values : Text → Data) (w : World)
      → Sent http w (send_result http nil_ctx t values w)
  unfolding send_result
  send_result-Sent nil_ctx none values w = reject-Sent http _ w
  send_result-Sent true (some t) values w = reject-Sent http _ w
  send_result-Sent false (some t) values w = send_prepared-Sent (apply_defaults http t) values w
