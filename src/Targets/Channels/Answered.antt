-- ===== src/Targets/Channels/Answered.antt =====
-- targets/webhook/webhook.go: what it means that SendResult has no error.
use notifykit.Base.{
  ◌≡◌, refl, sym, ap, ℤ, pos, ltb_ℤ, leb_ℤ, ◌||◌, Bool-cases, inl, inr, Option, none, some,
}
use notifykit.Text.{Text, bytes}
use notifykit.Notify.Error.{Error, redacted_error}
use notifykit.Notify.Error.MarkLaws.{permanent-some}
use notifykit.Notify.Result.{Result, ok, err, Result-cases}
use notifykit.Targets.Webhook.Errors.{safe_webhook_error}
use notifykit.Targets.Webhook.Sending.{
  Webhook, Http, Response, respond, received, post, post_response, prepare, client_of, request_of,
  send_prepared,
}
use notifykit.Targets.Webhook.Outcome.{IsSuccess, transport-some, range-IsSuccess}

respond-none :
    {World : Type 0} (name : Text) (resp : Response) (retry : ℤ) (text : Text)
    (fault : Option Error) (w : World)
    → (respond name resp retry text fault w).1 ≡ none
    → ((respond name resp retry text fault w).2 ≡ w) × IsSuccess resp.status_code
unfolding respond
respond-none name resp retry text (some e) w h =
    let (x, k, l) = transport-some (redacted_error e (bytes "webhook response read failed")) in cc
respond-none name resp retry text none w h =
    elim (Bool-cases (ltb_ℤ resp.status_code (pos 200) || leb_ℤ (pos 300) resp.status_code)) [
      | inl bad ↦ let h = rw (bad, respond) at h in cc
      | inr good ↦ rw (good, respond) (refl, range-IsSuccess resp.status_code good)
    ]

module _ {Client World Data : Type 0} (http : Http Client World) (t : Webhook Client Data)
    (values : Text → Data) where
  -- The body was rendered, the request was made with it, and the response had a status from 200 to 299,
  -- which left this world.
  abbrev pub IsAnswered : World → Type 0
  IsAnswered w' =
      (body : Text) × (w : World) × (resp : Response) × (prepare http t values ≡ ok body)
      × (http.do_request (client_of http t.client) (request_of http t body) w ≡ (ok resp, w'))
      × IsSuccess resp.status_code

  received-none :
      (a : Result Response × World)
      → (received http t a).1 ≡ none
      → (resp : Response) × (a ≡ (ok resp, (received http t a).2)) × IsSuccess resp.status_code
  unfolding received post_response
  received-none (err e, w) h = let (x, k, l) = transport-some (safe_webhook_error e) in cc
  received-none (ok resp, w) h =
      let (same, range) = respond-none t.name resp _ _ _ w h in
      (resp, ap (λ v. (ok resp, v)) (sym same), range)

  post-none :
      (body : Text) (w : World)
      → (post http t (client_of http t.client) body w).1 ≡ none
      → (resp : Response) × (http.do_request (client_of http t.client) (request_of http t body) w
          ≡ (ok resp, (post http t (client_of http t.client) body w).2))
        × IsSuccess resp.status_code
  unfolding post
  post-none body w h = elim (Result-cases (http.new_request t.method t.url)) [
    | inl (e, bad) ↦
        let (x, k, p) = permanent-some (safe_webhook_error e) in let h = rw (bad, post) at h in cc
    | inr (parsed, good) ↦
        let h = rw (good, post) at h in
        rw (good, post)
          (received-none (http.do_request (client_of http t.client) (request_of http t body) w) h)
  ]

  pub answered :
      (w : World)
      → (send_prepared http t values w).1 ≡ none
      → IsAnswered (send_prepared http t values w).2
  unfolding send_prepared
  answered w h = elim (Result-cases (prepare http t values)) [
    | inl (e, bad) ↦
        let (x, k, p) = permanent-some (safe_webhook_error e) in
        let h = rw (bad, send_prepared) at h in cc
    | inr (body, good) ↦
        let h = rw (good, send_prepared) at h in
        let (resp, d, range) = post-none body w h in
        rw (good, send_prepared) (body, w, resp, refl, d, range)
  ]
