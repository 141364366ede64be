-- ===== src/Notify/Retry/Rule.antt =====
-- The rule for the loop of withRetry: an invariant of one round, and what a round that returns gives.
use notifykit.Base.{
  ℕ, zero, suc, ◌+◌, ◌≤◌, ◌<◌, ◌≡◌, Option, none, some, arith, Option-cases, inl, inr,
}
use notifykit.Notify.Error.{Error, DeliveryResult}
use notifykit.Notify.Backoff.{RetryConfig}
use notifykit.Notify.Retry.{
  Runtime, before_attempt, Send, Outcome, Round, done, again, zero_result, max_attempts,
  attempt_round, retry_loop, with_retry, after_attempt,
}

pub max_attempts_pos : (cfg : RetryConfig) → 1 ≤ max_attempts cfg
unfolding max_attempts
max_attempts_pos cfg = ground arith

module _ {World : Type 0} where
  -- What a round leaves: a final outcome, or the invariant at the next count.
  abbrev pub Leaves {ℓ} :
      (ℕ → DeliveryResult → World → Type ℓ) → (Outcome World → Type ℓ) → ℕ → Round World → Type ℓ
  Leaves Inv Post executed (done o) = Post o
  Leaves Inv Post executed (again r e w) = Inv (suc executed) r w

  abbrev GoesOnBelow : ℕ → ℕ → Round World → Type 0
  GoesOnBelow executed limit (done o) = Unit
  GoesOnBelow executed limit (again r e w) = suc executed < limit

module _ {World : Type 0} (rt : Runtime World) (cfg : RetryConfig) (fn : Send World) where
  -- The three ways through a round: the wait failed, the context was done, or `fn` was called.
  pub attempt_round-cases {ℓ} :
      (P : Round World → Type ℓ) (executed : ℕ) (r : DeliveryResult) (w : World)
      → let w₁ = (before_attempt rt cfg executed r w).1 in
        ((e : Error)
          → (before_attempt rt cfg executed r w).0 ≡ some e
          → P (done (record { result = r; attempts = executed; error = some e; world = w₁ })))
        → ((e : Error)
            → (before_attempt rt cfg executed r w).0 ≡ none
            → rt.ctx_err w₁ ≡ some e
            → P (done (record { result = r; attempts = executed; error = some e; world = w₁ })))
        → ((before_attempt rt cfg executed r w).0 ≡ none
            → rt.ctx_err w₁ ≡ none
            → P (after_attempt rt cfg (suc executed) (fn w₁).0 (fn w₁).1 (fn w₁).2))
        → P (attempt_round rt cfg fn executed executed r w)
  unfolding attempt_round
  attempt_round-cases P executed r w stopped over called =
      elim (Option-cases (before_attempt rt cfg executed r w).0) [
        | inr (e, s) ↦ rw (s, attempt_round) (stopped e s)
        | inl s ↦ elim (Option-cases (rt.ctx_err (before_attempt rt cfg executed r w).1)) [
          | inr (e, c) ↦ rw (s, c, attempt_round) (over e s c)
          | inl c ↦ rw (s, c, attempt_round) (called s c)
        ]
      ]

  after_attempt-below :
      (executed : ℕ) (r : DeliveryResult) (e : Option Error) (w : World)
      → GoesOnBelow executed (max_attempts cfg) (after_attempt rt cfg (suc executed) r e w)
  unfolding after_attempt
  after_attempt-below executed r none w = tt
  after_attempt-below executed r (some e) w = ground arith

  -- The loop never goes on after the last attempt, so it returns from a round.
  attempt_round-below :
      (executed : ℕ) (r : DeliveryResult) (w : World)
      → GoesOnBelow executed (max_attempts cfg) (attempt_round rt cfg fn executed executed r w)
  attempt_round-below executed r w =
      attempt_round-cases (GoesOnBelow executed (max_attempts cfg)) executed r w (λ e s. tt)
        (λ e s c. tt) (λ s c. after_attempt-below executed _ _ _)

  module _ {ℓ} (Inv : ℕ → DeliveryResult → World → Type ℓ) (Post : Outcome World → Type ℓ)
      (round : (executed : ℕ) (r : DeliveryResult) (w : World)
        → executed < max_attempts cfg
        → Inv executed r w
        → Leaves Inv Post executed (attempt_round rt cfg fn executed executed r w)) where
    retry_loop-Post :
        (rounds executed : ℕ) (r : DeliveryResult) (e : Option Error) (w : World)
        → rounds + executed ≡ max_attempts cfg
        → executed < max_attempts cfg
        → Inv executed r w
        → Post (retry_loop rt cfg fn rounds executed executed r e w)
    unfolding retry_loop
    retry_loop-Post zero executed r e w n h i = absurd (omega arith)
    retry_loop-Post (suc rounds) executed r e w n h i =
        go (attempt_round rt cfg fn executed executed r w) (round executed r w h i)
          (attempt_round-below executed r w)
          (λ r' e' w'. retry_loop-Post rounds (suc executed) r' e' w' (omega arith))
      where
        go :
            (x : Round World)
            → Leaves Inv Post executed x
            → GoesOnBelow executed (max_attempts cfg) x
            → ((r' : DeliveryResult) (e' : Option Error) (w' : World)
                → suc executed < max_attempts cfg
                → Inv (suc executed) r' w'
                → Post (retry_loop rt cfg fn rounds (suc executed) (suc executed) r' e' w'))
            → Post (elim x [
              | done o ↦ o
              | again r' e' w' ↦
                  retry_loop rt cfg fn rounds (suc executed) (suc executed) r' (some e') w'
            ])
        go (done o) l b rec = l
        go (again r' e' w') l b rec = rec r' (some e') w' b l

    pub with_retry-Post : (w : World) → Inv 0 zero_result w → Post (with_retry rt cfg fn w)
    unfolding with_retry
    with_retry-Post w i =
        retry_loop-Post (max_attempts cfg) 0 zero_result none w (omega arith) (max_attempts_pos cfg)
          i
