-- ===== src/Notify/Retry/Giving.antt =====
-- notify/retry.go and notify/retry_policy.go: why withRetry gives up under the default policy.
use notifykit.Base.{
  ℕ, zero, suc, leb, ◌∙◌, ◌≤◌, ◌≡◌, refl, ◌⊎◌, inl, inr, ℤ, pos, ◌≤ℤ◌, Bool, true, false, not, none,
  some, arith, ap, Bool-cases,
}
use notifykit.Notify.Error.{Error, DeliveryResult}
use notifykit.Notify.Error.Marks.{is_permanent, is_transport}
use notifykit.Notify.Backoff.{RetryConfig}
use notifykit.Notify.Policy.{RetryPolicy, default_retry_policy}
use notifykit.Notify.Policy.Laws.{IsBuiltin, IsBuiltin-permanent, default_retry_policy_iff}
use notifykit.Notify.Retry.{
  Runtime, Send, Outcome, max_attempts, gives_up, before_attempt, after_attempt, attempt_round,
  retry_loop, with_retry, done, zero_result,
}
use notifykit.Notify.Retry.Rule.{max_attempts_pos}

-- The status codes that the default policy retries.
abbrev pub IsRetryable : ℤ → Type 0
IsRetryable code = (code ≡ pos 408) ⊎ ((code ≡ pos 429) ⊎ ((pos 500 ≤ℤ code) × (code ≤ℤ pos 599)))

-- What the default policy makes of a failure: it is permanent, or worth another attempt, or neither.
pub data Verdict (r : DeliveryResult) (e : Error) : Type 0 where
  hopeless : is_permanent (some e) ≡ true → Verdict r e
  retryable :
      default_retry_policy r (some e) ≡ true
      → (is_transport (some e) ≡ true) ⊎ IsRetryable r.status_code
      → Verdict r e
  final :
      is_permanent (some e) ≡ false
      → is_transport (some e) ≡ false
      → ¬ IsRetryable r.status_code
      → Verdict r e

pub default-Verdict : (r : DeliveryResult) (e : Error) → Verdict r e
default-Verdict r e = elim (Bool-cases (is_permanent (some e))) [
  | inl p ↦ hopeless p
  | inr u ↦ elim (Bool-cases (default_retry_policy r (some e))) [
    | inl retried ↦ retryable retried ((default_retry_policy_iff r e).0 retried).1
    | inr over ↦
        final u (no_transport u over)
          (λ k. let h = (default_retry_policy_iff r e).1 (u, inr k) in cc)
  ]
]
  where
    no_transport :
        is_permanent (some e) ≡ false
        → default_retry_policy r (some e) ≡ false
        → is_transport (some e) ≡ false
    no_transport u over = elim (Bool-cases (is_transport (some e))) [
      | inl t ↦ let h = (default_retry_policy_iff r e).1 (u, inl t) in cc
      | inr t ↦ t
    ]

-- A retryable failure is given up only for want of attempts.
pub retryable-exhausted :
    (cfg : RetryConfig) (r : DeliveryResult) (e : Error) (attempts : ℕ)
    → cfg.policy ≡ some default_retry_policy
    → default_retry_policy r (some e) ≡ true
    → (max_attempts cfg ≤ attempts) ⊎ (gives_up cfg.policy r e ≡ true)
    → max_attempts cfg ≤ attempts
unfolding gives_up
retryable-exhausted cfg r e attempts p retried (inl k) = k
retryable-exhausted cfg r e attempts p retried (inr g) =
    let h = ap (λ q. gives_up q r e) p in ground (arith, h)

module _ {World : Type 0} (rt : Runtime World) (cfg : RetryConfig) (fn : Send World) where
  -- What a call at the first round comes to.
  first_round :
      (w : World) (r : DeliveryResult) (e : Error) (w' : World)
      → rt.ctx_err w ≡ none
      → fn w ≡ (r, some e, w')
      → rt.ctx_err w' ≡ none
      → gives_up cfg.policy r e ≡ true
      → attempt_round rt cfg fn 0 0 zero_result w
        ≡ done (record { result = r; attempts = 1; error = some e; world = w' })
  unfolding attempt_round before_attempt after_attempt
  first_round w r e w' live f still g =
      rw (live, attempt_round, f) (over (leb (max_attempts cfg) 1) refl)
    where
      over :
          (b : Bool)
          → leb (max_attempts cfg) 1 ≡ b
          → after_attempt rt cfg 1 r (some e) w'
            ≡ done (record { result = r; attempts = 1; error = some e; world = w' })
      over true h = rw (after_attempt, still, h) refl
      over false h = rw (after_attempt, still, h, g) refl

  loop-once :
      (rounds : ℕ) (w : World) (o : Outcome World)
      → 1 ≤ rounds
      → attempt_round rt cfg fn 0 0 zero_result w ≡ done o
      → retry_loop rt cfg fn rounds 0 0 zero_result none w ≡ o
  unfolding retry_loop
  loop-once zero w o l h = absurd (omega arith)
  loop-once (suc rounds) w o l h = rw (retry_loop, h) refl

  -- A first failure that is permanent is the last: a policy built from the package's own does not
  -- retry it, and the function is called once.
  pub with_retry-once :
      (policy : RetryPolicy) (w : World) (r : DeliveryResult) (e : Error) (w' : World)
      → cfg.policy ≡ some policy
      → IsBuiltin policy
      → rt.ctx_err w ≡ none
      → fn w ≡ (r, some e, w')
      → rt.ctx_err w' ≡ none
      → is_permanent (some e) ≡ true
      → with_retry rt cfg fn w ≡ record { result = r; attempts = 1; error = some e; world = w' }
  unfolding with_retry gives_up
  with_retry-once policy w r e w' c b live f still p =
      loop-once (max_attempts cfg) w _ (max_attempts_pos cfg) (
        first_round w r e w' live f still
          (ap (λ q. gives_up q r e) c ∙ ap not (IsBuiltin-permanent b r e p).1))
