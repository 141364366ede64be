-- ===== src/Targets/Webhook/Retries.antt =====
-- notify/retry.go with targets/webhook/webhook.go: a webhook target under a retry configuration.
use notifykit.Base.{
  ◌≤◌, ◌≡◌, refl, sym, ap, subst, ◌∙◌, ◌⊎◌, inl, inr, pos, ◌≤ℤ◌, ◌<ℤ◌, true, false, Option, none,
  some,
}
use notifykit.Text.{Text}
use notifykit.Notify.Error.{Error, DeliveryResult}
use notifykit.Notify.Error.Marks.{is_permanent, is_transport, permanent}
use notifykit.Notify.Error.MarkLaws.{permanent-some}
use notifykit.Notify.Backoff.{RetryConfig}
use notifykit.Notify.Policy.{RetryPolicy, default_retry_policy}
use notifykit.Notify.Policy.Laws.{IsBuiltin}
use notifykit.Notify.Result.{ok, error_of, Result-cases}
use notifykit.Notify.Retry.{Runtime, Send, Outcome, max_attempts, gives_up, with_retry, zero_result}
use notifykit.Notify.Retry.Outcomes.{Explains, with_retry-Explains}
use notifykit.Notify.Retry.Giving.{
  Verdict, IsRetryable, default-Verdict, retryable-exhausted, with_retry-once,
}
use notifykit.Targets.Webhook.Config.{validate}
use notifykit.Targets.Webhook.Errors.{safe_webhook_error}
use notifykit.Targets.Webhook.Outcome.{Sent, IsSuccess, IsLoss, IsLossOf-IsLoss, send_result-Sent}
use notifykit.Targets.Webhook.Sending.{
  Webhook, Http, Request, Response, prepare, apply_defaults, send_prepared, send_result,
}

-- What a report is: a failure with a mark, or a response with its status code.
abbrev IsReport :
    {Client World : Type 0}
    → Http Client World
    → World
    → DeliveryResult × Option Error × World
    → Type 0
IsReport {Client} http w out =
    ((e : Error) × (out.1 ≡ some e) × IsLoss e)
    ⊎ ((c : Client) × (q : Request) × (resp : Response) × (http.do_request c q w ≡ (ok resp, out.2))
        × (out.0.status_code ≡ resp.status_code)
        × (((e : Error) × (out.1 ≡ some e)
              × ((resp.status_code <ℤ pos 200) ⊎ (pos 300 ≤ℤ resp.status_code)))
            ⊎ ((out.1 ≡ none) × IsSuccess resp.status_code)))

Sent-IsReport :
    {Client World : Type 0} {http : Http Client World} {w : World}
    {out : DeliveryResult × Option Error × World}
    → Sent http w out
    → IsReport http w out
Sent-IsReport (Sent.rejected e p) = inl (e, refl, inl p)
Sent-IsReport (Sent.lost c q r cause e w' d s l) = inl (e, refl, IsLossOf-IsLoss cause e l)
Sent-IsReport (Sent.unread c q resp r cause e w' d s b l) = inl (e, refl, IsLossOf-IsLoss cause e l)
Sent-IsReport (Sent.refused c q resp r e w' d s range u n) =
    inr (c, q, resp, d, s, inl (e, refl, range))
Sent-IsReport (Sent.delivered c q resp r w' d s range) = inr (c, q, resp, d, s, inr (refl, range))

module _ {Client World Data : Type 0} (http : Http Client World) (rt : Runtime World)
    (t : Webhook Client Data) (values : Text → Data) where
  -- One call of SendResult.
  unfoldable pub send_webhook : Send World
  send_webhook w = send_result http false (some t) values w

  module _ (cfg : RetryConfig) where
    -- The ways in which withRetry ends. The last call of Client.Do took the world `w`.
    pub data WebhookEnds (o : Outcome World) : Type 0 where
      accepted :
          (c : Client) (q : Request) (w : World) (resp : Response)
          → http.do_request c q w ≡ (ok resp, o.world)
          → IsSuccess resp.status_code
          → o.result.status_code ≡ resp.status_code
          → o.error ≡ none
          → WebhookEnds o
      interrupted : (e : Error) → rt.ctx_err o.world ≡ some e → o.error ≡ some e → WebhookEnds o
      hopeless : (e : Error) → o.error ≡ some e → is_permanent (some e) ≡ true → WebhookEnds o
      refused :
          (c : Client) (q : Request) (w : World) (resp : Response) (e : Error)
          → http.do_request c q w ≡ (ok resp, o.world)
          → (resp.status_code <ℤ pos 200) ⊎ (pos 300 ≤ℤ resp.status_code)
          → ¬ IsRetryable resp.status_code
          → o.error ≡ some e
          → WebhookEnds o
      exhausted :
          (e : Error)
          → o.error ≡ some e
          → (is_transport (some e) ≡ true) ⊎ IsRetryable o.result.status_code
          → max_attempts cfg ≤ o.attempts
          → WebhookEnds o

    failing :
        (o : Outcome World) (w : World) (e : Error)
        → cfg.policy ≡ some default_retry_policy
        → o.error ≡ some e
        → (max_attempts cfg ≤ o.attempts) ⊎ (gives_up cfg.policy o.result e ≡ true)
        → Verdict o.result e
        → IsReport http w (o.result, some e, o.world)
        → WebhookEnds o
    failing o w e p h why (Verdict.hopeless k) x = hopeless e h k
    failing o w e p h why (Verdict.retryable k l) x =
        exhausted e h l (retryable-exhausted cfg o.result e o.attempts p k why)
    failing o w e p h why (Verdict.final u n k) (inl (e', same, inl l)) = cc
    failing o w e p h why (Verdict.final u n k) (inl (e', same, inr l)) = cc
    failing o w e p h why (Verdict.final u n k) (inr (c, q, resp, d, s, inl (e', same, range))) =
        refused c q w resp e d range (subst (λ x. ¬ IsRetryable x) s k) h
    failing o w e p h why (Verdict.final u n k) (inr (c, q, resp, d, s, inr (none_, range))) = cc

    succeeding :
        (o : Outcome World) (w : World)
        → o.error ≡ none
        → IsReport http w (o.result, none, o.world)
        → WebhookEnds o
    succeeding o w h (inl (e, same, l)) = cc
    succeeding o w h (inr (c, q, resp, d, s, inl (e, same, range))) = cc
    succeeding o w h (inr (c, q, resp, d, s, inr (none_, range))) = accepted c q w resp d range s h

    report :
        (w : World) (out : DeliveryResult × Option Error × World)
        → send_webhook w ≡ out
        → IsReport http w out
    unfolding send_webhook
    report w out f =
        subst (IsReport http w) f (Sent-IsReport (send_result-Sent http false (some t) values w))

    -- A webhook target under a retry configuration with the default policy: the last response has a
    -- status from 200 to 299, and withRetry returns no error; or the context was done, and the error
    -- is the context's; or the last failure was permanent; or the last response has a status outside
    -- of that range, and not 408, 429 or 500 to 599; or the last failure was one for transport or such
    -- a status, and the attempts were used up.
    pub with_retry-WebhookEnds :
        cfg.policy ≡ some default_retry_policy
        → (w : World) → WebhookEnds (with_retry rt cfg send_webhook w)
    with_retry-WebhookEnds p w = go (with_retry-Explains rt cfg send_webhook w)
      where
        go : {o : Outcome World} → Explains rt cfg send_webhook o → WebhookEnds o
        go {o} (Explains.delivered w' live f n h) = succeeding o w' h (report w' _ f)
        go (Explains.interrupted e c h) = interrupted e c h
        go {o} (Explains.gave_up w' e live f still why h) =
            failing o w' e p h why (default-Verdict o.result e) (report w' _ f)

  -- A target that Validate rejects is tried once, with any of the package's policies, whatever the
  -- retry configuration, and no request is made; the error is that of Validate, redacted and marked
  -- permanent.
  pub with_retry-rejected :
      (cfg : RetryConfig) (policy : RetryPolicy) (w : World) (e : Error)
      → cfg.policy ≡ some policy
      → IsBuiltin policy
      → validate http (some t) values ≡ some e
      → rt.ctx_err w ≡ none
      → let o = with_retry rt cfg send_webhook w in
        (o.attempts ≡ 1) × (o.error ≡ permanent (some (safe_webhook_error e))) × (o.world ≡ w)
  unfolding send_webhook send_result send_prepared validate
  with_retry-rejected cfg policy w e c b v live =
      elim (Result-cases (prepare http (apply_defaults http t) values)) [
        | inr (body, good) ↦ let k = ap error_of good in cc
        | inl (e', bad) ↦
            let (x, k, p) = permanent-some (safe_webhook_error e) in
            let found = ap error_of bad in
            let same : e' ≡ e = cc in
            let marked = ap (λ y. permanent (some (safe_webhook_error y))) same ∙ k in
            let f : send_webhook w ≡ (zero_result, some x, w) =
              rw (bad, send_prepared) (λ i. (zero_result, marked i, w)) in
            let once = with_retry-once rt cfg send_webhook policy w _ x _ c b live f live p in
            (ap (λ o. o.attempts) once, ap (λ o. o.error) once ∙ sym k, ap (λ o. o.world) once)
      ]
