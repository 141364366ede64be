-- ===== src/Notify/Retry/Invariant.antt =====
-- What a world keeps through withRetry of notify/retry.go.
use notifykit.Base.{
  ℕ, suc, ℤ, pos, ltb, ltb_ℤ, ◌||◌, leb, Option, none, some, Option-cases, Bool-cases, inl, inr,
}
use notifykit.Notify.Error.{Error, DeliveryResult}
use notifykit.Notify.Backoff.{RetryConfig, retry_delay}
use notifykit.Notify.Retry.{
  Runtime, Send, gives_up, max_attempts, wait_for_retry, before_attempt, after_attempt, with_retry,
}
use notifykit.Notify.Retry.Rule.{Leaves, attempt_round-cases, with_retry-Post}

module _ {ℓ} {World : Type 0} (rt : Runtime World) (cfg : RetryConfig) (fn : Send World)
    (I : World → Type ℓ) (on_await : (d : ℤ) (w : World) → I w → I (rt.await d w).1)
    (on_send : (w : World) → I w → I (fn w).2) where
  before_attempt-keeps :
      (attempt : ℕ) (r : DeliveryResult) (w : World) → I w → I (before_attempt rt cfg attempt r w).1
  unfolding before_attempt wait_for_retry
  before_attempt-keeps attempt r w i = elim (Bool-cases (ltb 0 attempt)) [
    | inr first ↦ rw first i
    | inl later ↦ elim (Bool-cases (ltb_ℤ (pos 0) (retry_delay (rt.random w) cfg attempt r))) [
      | inr at_once ↦ rw (later, at_once) i
      | inl waits ↦ rw (later, waits) (on_await (retry_delay (rt.random w) cfg attempt r) w i)
    ]
  ]

  after_attempt-keeps :
      (executed : ℕ) (r : DeliveryResult) (e : Option Error) (w : World)
      → I w
      → Leaves (λ n q v. I v) (λ o. I o.world) executed (after_attempt rt cfg (suc executed) r e w)
  unfolding after_attempt
  after_attempt-keeps executed r none w i = i
  after_attempt-keeps executed r (some e) w i = elim (Option-cases (rt.ctx_err w)) [
    | inr (c, over) ↦ rw (over, after_attempt) i
    | inl live ↦
        elim (Bool-cases (leb (max_attempts cfg) (suc executed) || gives_up cfg.policy r e)) [
          | inl last ↦ rw (live, after_attempt, last) i
          | inr again ↦ rw (live, after_attempt, again) i
        ]
  ]

  -- What waiting and each call keep is kept by withRetry.
  pub with_retry-keeps : (w : World) → I w → I (with_retry rt cfg fn w).world
  with_retry-keeps =
      with_retry-Post rt cfg fn (λ n q v. I v) (λ o. I o.world)
        λ executed r w l i.
          let kept = before_attempt-keeps executed r w i in
          attempt_round-cases rt cfg fn (Leaves (λ n q v. I v) (λ o. I o.world) executed) executed r
            w (λ e s. kept) (λ e s c. kept)
            (λ s c. after_attempt-keeps executed _ _ _ (on_send _ kept))
