-- ===== src/Targets/Email/Retries.antt =====
-- notify/retry.go with targets/email/email.go: an email target under a retry configuration.
use notifykit.Base.{
  ◌≤◌, ◌≡◌, refl, sym, ap, subst, ◌∙◌, ◌⊎◌, inl, inr, true, false, Option, none, some, [],
}
use notifykit.Text.{Text, bytes}
use notifykit.Notify.Error.{Error, DeliveryResult}
use notifykit.Notify.Error.Marks.{is_permanent, is_transport, permanent}
use notifykit.Notify.Error.MarkLaws.{permanent-some}
use notifykit.Notify.Backoff.{RetryConfig}
use notifykit.Notify.Policy.{RetryPolicy, default_retry_policy}
use notifykit.Notify.Policy.Laws.{IsBuiltin, default_retry_policy_iff}
use notifykit.Notify.Result.{ok, err}
use notifykit.Notify.Retry.{Runtime, Send, Outcome, max_attempts, gives_up, with_retry}
use notifykit.Notify.Retry.Outcomes.{Explains, with_retry-Explains}
use notifykit.Notify.Retry.Giving.{retryable-exhausted, with_retry-once}
use notifykit.Targets.Email.Config.{Email, apply_defaults}
use notifykit.Targets.Email.Mailbox.{Mail}
use notifykit.Targets.Email.Proxy.{Proxies}
use notifykit.Targets.Email.Classify.Marks.{IsTransient}
use notifykit.Targets.Email.Wire.{History, Peer}
use notifykit.Targets.Email.Session.{send_smtp}
use notifykit.Targets.Email.Session.Plan.{delivery_plan}
use notifykit.Targets.Email.Sending.{Rendered, render, validate, send_result}
use notifykit.Targets.Email.Sending.Outcome.{IsEnding, send_result-IsEnding}

-- What the attempts meet in a world: the network and the servers, the text of the time that has
-- passed, and the world that the calls leave.
pub record Network (World : Type 0) : Type 0 where
  pub peer : World → Peer
  pub elapsed : World → Text
  pub after : World → History → World

module _ {World Data : Type 0} (mail : Mail) (proxies : Proxies) (net : Network World)
    (rt : Runtime World) (t : Email Data) (values : Text → Data) where
  -- One call of SendResult.
  abbrev pub report_of : World → DeliveryResult × Option Error × History
  report_of w =
      send_result mail proxies (net.peer w) false (rt.ctx_err w) (some t) values (net.elapsed w)

  unfoldable pub send_email : Send World
  send_email w = let (result, error, calls) = report_of w in (result, error, net.after w calls)

  pub live_report :
      (w : World)
      → rt.ctx_err w ≡ none
      → IsEnding mail proxies (net.peer w) t values (net.elapsed w) (report_of w)
  live_report w live =
      rw live (send_result-IsEnding mail proxies (net.peer w) t values (net.elapsed w))

  module _ (cfg : RetryConfig) where
    -- The last call of SendResult got as far as sendSMTP, which failed with `cause`.
    abbrev pub FailsWith : World → Error → Outcome World → Type 0
    FailsWith w cause o =
        (r : Rendered) × (render (apply_defaults t) values ≡ ok r)
        × (send_smtp mail proxies (net.peer w) (apply_defaults t) r.subject r.body
            ≡ (some cause, (report_of w).2))
        × (o.world ≡ net.after w (report_of w).2)

    -- The ways in which withRetry ends. The last call of SendResult took the world `w`.
    pub data EmailEnds (o : Outcome World) : Type 0 where
      sent :
          (w : World) (r : Rendered)
          → o.error ≡ none
          → o.result.status ≡ bytes "sent"
          → render (apply_defaults t) values ≡ ok r
          → (report_of w).2 ≡ delivery_plan mail proxies (apply_defaults t) r.subject r.body
          → o.world ≡ net.after w (report_of w).2
          → EmailEnds o
      interrupted : (e : Error) → rt.ctx_err o.world ≡ some e → o.error ≡ some e → EmailEnds o
      rejected :
          (w : World) (cause : Error)
          → o.result.status ≡ bytes "failed"
          → validate mail (some t) values ≡ err cause
          → o.error ≡ permanent (some cause)
          → o.world ≡ net.after w []
          → EmailEnds o
      hopeless :
          (w : World) (cause e : Error)
          → o.result.status ≡ bytes "failed"
          → FailsWith w cause o
          → (is_permanent (some cause) ≡ true) ⊎ (¬ IsTransient cause)
          → o.error ≡ some e
          → is_permanent (some e) ≡ true
          → EmailEnds o
      exhausted :
          (w : World) (cause e : Error)
          → o.result.status ≡ bytes "failed"
          → FailsWith w cause o
          → IsTransient cause
          → o.error ≡ some e
          → is_transport (some e) ≡ true
          → max_attempts cfg ≤ o.attempts
          → EmailEnds o

    ending :
        (o : Outcome World) (w : World) (error : Option Error)
        → cfg.policy ≡ some default_retry_policy
        → send_email w ≡ (o.result, error, o.world)
        → o.error ≡ error
        → IsEnding mail proxies (net.peer w) t values (net.elapsed w) (report_of w)
        → ((e : Error)
            → error ≡ some e
            → (max_attempts cfg ≤ o.attempts) ⊎ (gives_up cfg.policy o.result e ≡ true))
        → EmailEnds o
    unfolding send_email is_permanent is_transport
    ending o w none p f h x why =
        let status = ap (λ y. y.0.status) f in
        let error = ap (λ y. y.1) f in
        elim x [
          | inl (e, v, failed, marked, perm, calls) ↦ let k = ap is_permanent error in cc
          | inr (r, v, d, line, inl (delivered, none_, calls)) ↦
              sent w r h (sym status ∙ delivered) d calls (sym (ap (λ y. y.2) f))
          | inr (r, v, d, line, inr (failed, (c, smtp, inl (perm, kept)))) ↦ cc
          | inr (r, v, d, line, inr (failed, (c, smtp, inr (u, inl (t, np, k))))) ↦
              let k = ap is_transport error in cc
          | inr (r, v, d, line, inr (failed, (c, smtp, inr (u, inr (t, perm, k))))) ↦
              let k = ap is_permanent error in cc
        ]
    ending o w (some e) p f h x why =
        let status = ap (λ y. y.0.status) f in
        let error = ap (λ y. y.1) f in
        let left = sym (ap (λ y. y.2) f) in
        elim x [
          | inl (c, v, failed, marked, perm, calls) ↦
              rejected w c (sym status ∙ failed) v (h ∙ sym error ∙ marked)
                (left ∙ ap (net.after w) calls)
          | inr (r, v, d, line, inl (delivered, none_, calls)) ↦ cc
          | inr (r, v, d, line, inr (failed, (c, smtp, inl (perm, kept)))) ↦
              hopeless w c e (sym status ∙ failed) (r, d, smtp, left) (inl perm) h
                (subst (λ y. is_permanent y ≡ true) (sym kept ∙ error) perm)
          | inr (r, v, d, line, inr (failed, (c, smtp, inr (u, inl (t, np, k))))) ↦
              let t' = subst (λ y. is_transport y ≡ true) error t in
              let np' = subst (λ y. is_permanent y ≡ false) error np in
              exhausted w c e (sym status ∙ failed) (r, d, smtp, left) k h t'
                (retryable-exhausted cfg o.result e o.attempts p
                  ((default_retry_policy_iff o.result e).1 (np', inl t')) (why e refl))
          | inr (r, v, d, line, inr (failed, (c, smtp, inr (u, inr (t, perm, k))))) ↦
              hopeless w c e (sym status ∙ failed) (r, d, smtp, left) (inr k) h
                (subst (λ y. is_permanent y ≡ true) error perm)
        ]

    -- An email target under a retry configuration with the default policy: it is sent, with all the
    -- calls of the plan, and withRetry returns no error; or the context was done, and the error is the
    -- context's; or Validate finds an error, which is returned with the permanent mark, and no call is
    -- made; or the last sendSMTP failed with an error that was permanent or is not transient, and the
    -- returned one is permanent; or it failed with a transient one, the returned one is marked for
    -- transport, and the attempts were used up.
    pub with_retry-EmailEnds :
        cfg.policy ≡ some default_retry_policy
        → (w : World) → EmailEnds (with_retry rt cfg send_email w)
    with_retry-EmailEnds p w = go (with_retry-Explains rt cfg send_email w)
      where
        go : {o : Outcome World} → Explains rt cfg send_email o → EmailEnds o
        go {o} (Explains.delivered w' live f n h) =
            ending o w' none p f h (live_report w' live) (λ e k. cc)
        go (Explains.interrupted e c h) = interrupted e c h
        go {o} (Explains.gave_up w' e live f still why h) =
            ending o w' (some e) p f h (live_report w' live) (λ e' k.
              subst (λ x. (max_attempts cfg ≤ o.attempts) ⊎ (gives_up cfg.policy o.result x ≡ true))
                (cc) why)

  -- A target that Validate rejects is tried once, with any of the package's policies, whatever the
  -- retry configuration, and no call is made; the error is that of Validate, marked permanent.
  with_retry-invalid :
      (cfg : RetryConfig) (policy : RetryPolicy) (w : World) (e : Error)
      → cfg.policy ≡ some policy
      → IsBuiltin policy
      → validate mail (some t) values ≡ err e
      → rt.ctx_err w ≡ none
      → rt.ctx_err (net.after w []) ≡ none
      → let o = with_retry rt cfg send_email w in
        (o.attempts ≡ 1) × (o.error ≡ permanent (some e)) × (o.world ≡ net.after w [])
  unfolding send_email
  with_retry-invalid cfg policy w e c b v live still = elim (live_report w live) [
    | inr (r, v', d, l, x) ↦ cc
    | inl (e', v', failed, marked, perm, calls) ↦
        let (x, k, p) = permanent-some e in
        let same : e' ≡ e = cc in
        let f : send_email w ≡ ((report_of w).0, some x, net.after w []) = λ i. (
          (report_of w).0,
          (marked ∙ (ap (λ y. permanent (some y)) same ∙ k)) i,
          net.after w (calls i),
        ) in
        let once = with_retry-once rt cfg send_email policy w _ x _ c b live f still p in
        (ap (λ o. o.attempts) once, ap (λ o. o.error) once ∙ sym k, ap (λ o. o.world) once)
  ]
