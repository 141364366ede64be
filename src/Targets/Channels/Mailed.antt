-- ===== src/Targets/Channels/Mailed.antt =====
-- targets/email/email.go: what it means that SendResult has no error.
use notifykit.Base.{◌≡◌, sym, ap, ◌∙◌, inl, inr, none}
use notifykit.Text.{Text, bytes}
use notifykit.Notify.Error.{DeliveryResult}
use notifykit.Notify.Error.Marks.{is_permanent, is_transport}
use notifykit.Notify.Result.{ok}
use notifykit.Notify.Retry.{Runtime}
use notifykit.Targets.Email.Config.{Email, apply_defaults}
use notifykit.Targets.Email.Mailbox.{Mail}
use notifykit.Targets.Email.Proxy.{Proxies}
use notifykit.Targets.Email.Retries.{Network, report_of, send_email}
use notifykit.Targets.Email.Sending.{Rendered, render}
use notifykit.Targets.Email.Sending.Outcome.{IsEnding}
use notifykit.Targets.Email.Session.Plan.{delivery_plan}

module _ {World Data : Type 0} (mail : Mail) (proxies : Proxies) (net : Network World)
    (rt : Runtime World) (t : Email Data) (values : Text → Data) where
  -- The mail was rendered and all the calls of the plan were made, which left this world.
  abbrev pub IsMailed : World → Type 0
  IsMailed w' =
      (w : World) × (r : Rendered) × (render (apply_defaults t) values ≡ ok r)
      × ((report_of mail proxies net rt t values w).0.status ≡ bytes "sent")
      × (w' ≡ net.after w (delivery_plan mail proxies (apply_defaults t) r.subject r.body))

  pub mailed :
      (w : World) (result : DeliveryResult) (w' : World)
      → IsEnding mail proxies
          (net.peer w)
          t
          values
          (net.elapsed w)
          (report_of mail proxies net rt t values w)
      → send_email mail proxies net rt t values w ≡ (result, none, w')
      → IsMailed w'
  unfolding send_email is_permanent is_transport
  mailed w result w' x f =
      let error = ap (λ y. y.1) f in
      elim x [
        | inl (e, v, failed, marked, perm, calls) ↦ let k = ap is_permanent error in cc
        | inr (r, v, d, line, inl (delivered, none_, calls)) ↦
            (w, r, d, delivered, sym (ap (λ y. y.2) f) ∙ ap (net.after w) calls)
        | inr (r, v, d, line, inr (failed, (c, smtp, inl (perm, kept)))) ↦ cc
        | inr (r, v, d, line, inr (failed, (c, smtp, inr (u, inl (t, np, k))))) ↦
            let k = ap is_transport error in cc
        | inr (r, v, d, line, inr (failed, (c, smtp, inr (u, inr (t, perm, k))))) ↦
            let k = ap is_permanent error in cc
      ]
