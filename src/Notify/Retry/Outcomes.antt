-- ===== src/Notify/Retry/Outcomes.antt =====
-- What the result of withRetry of notify/retry.go means.
use notifykit.Base.{
  ℕ, suc, ◌-◌, ◌≤◌, ◌≡◌, refl, ◌⊎◌, true, ◌||◌, Option, none, some, arith, leb, Option-cases,
  Bool-cases, inl, inr,
}
use notifykit.Notify.Error.{Error, DeliveryResult}
use notifykit.Notify.Backoff.{RetryConfig}
use notifykit.Notify.Retry.{
  Runtime, Send, Outcome, Round, zero_result, max_attempts, gives_up, before_attempt, after_attempt,
  attempt_round, with_retry, retry_loop,
}
use notifykit.Notify.Retry.Rule.{max_attempts_pos, Leaves, attempt_round-cases, with_retry-Post}

module _ {World : Type 0} (rt : Runtime World) (cfg : RetryConfig) (fn : Send World) where
  -- The three ways to return. The last call of `fn` took the world `w`.
  pub data Explains (o : Outcome World) : Type 0 where
    delivered :
        (w : World)
        → rt.ctx_err w ≡ none
        → fn w ≡ (o.result, none, o.world)
        → 1 ≤ o.attempts
        → o.error ≡ none
        → Explains o
    interrupted : (e : Error) → rt.ctx_err o.world ≡ some e → o.error ≡ some e → Explains o
    gave_up :
        (w : World) (e : Error)
        → rt.ctx_err w ≡ none
        → fn w ≡ (o.result, some e, o.world)
        → rt.ctx_err o.world ≡ none
        → (max_attempts cfg ≤ o.attempts) ⊎ (gives_up cfg.policy o.result e ≡ true)
        → o.error ≡ some e
        → Explains o

  before_attempt-stop :
      (attempt : ℕ) (r : DeliveryResult) (w : World) (e : Error)
      → (before_attempt rt cfg attempt r w).0 ≡ some e
      → rt.ctx_err (before_attempt rt cfg attempt r w).1 ≡ some e
  unfolding before_attempt
  before_attempt-stop attempt r w e h = ground arith

  abbrev ToExplain : ℕ → Round World → Type 0
  ToExplain = Leaves (λ k r w. Unit {0}) Explains

  after_attempt-Explains :
      (executed : ℕ) (w : World) (x : DeliveryResult × Option Error × World)
      → rt.ctx_err w ≡ none
      → fn w ≡ x
      → ToExplain executed (after_attempt rt cfg (suc executed) x.0 x.1 x.2)
  unfolding after_attempt
  after_attempt-Explains executed w (r, none, w') c h = delivered w c h (omega arith) refl
  after_attempt-Explains executed w (r, some e, w') c h = elim (Option-cases (rt.ctx_err w')) [
    | inr (e', k) ↦ rw (k, after_attempt) (interrupted e' k refl)
    | inl k ↦
        rw (k, after_attempt)
          (elim (Bool-cases (leb (max_attempts cfg) (suc executed) || gives_up cfg.policy r e)) [
            | inl stop ↦ rw stop (gave_up w e c h k (ground arith) refl)
            | inr on ↦ rw on tt
          ])
  ]

  -- withRetry always returns, and for one of three reasons: its last call of `fn`, made with a live
  -- context, gave the returned result and no error; or the context was done, and the returned error
  -- is the context's; or the last call, made with a live context, gave the returned result and
  -- error, and the attempts were used up or the policy (a nil one too) did not retry.
  pub with_retry-Explains : (w : World) → Explains (with_retry rt cfg fn w)
  with_retry-Explains w =
      with_retry-Post rt cfg fn (λ k r w'. Unit {0}) Explains
        (λ executed r w' l i.
          attempt_round-cases rt cfg fn (ToExplain executed) executed r w'
            (λ e s. interrupted e (before_attempt-stop executed r w' e s) refl)
            (λ e s c. interrupted e c refl) (λ s c. after_attempt-Explains executed _ _ c refl))
        w tt

  loop_done :
      (rounds : ℕ) (w : World) (e : Error)
      → rt.ctx_err w ≡ some e
      → retry_loop rt cfg fn (suc rounds) 0 0 zero_result none w
        ≡ record { result = zero_result; attempts = 0; error = some e; world = w }
  unfolding retry_loop attempt_round before_attempt
  loop_done rounds w e h = rw h

  -- With a context that is done at the start nothing is sent and the context's error is returned.
  with_retry_done :
      (w : World) (e : Error)
      → rt.ctx_err w ≡ some e
      → with_retry rt cfg fn w
        ≡ record { result = zero_result; attempts = 0; error = some e; world = w }
  with_retry_done w e h =
      let n : max_attempts cfg ≡ suc (max_attempts cfg - 1) = omega (arith, max_attempts_pos cfg) in
      unfold with_retry in rw n (loop_done (max_attempts cfg - 1) w e h)
