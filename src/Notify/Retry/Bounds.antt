-- ===== src/Notify/Retry/Bounds.antt =====
-- How often withRetry of notify/retry.go calls its function.
use notifykit.Base.{
  ℕ, suc, ◌+◌, ◌≤◌, ◌<◌, ◌≡◌, ℤ, pos, negsuc, IsInt64, max_int64, Option, none, some, arith, ◌==◌,
  if◌then◌else◌,
}
use notifykit.Notify.Error.{Error, DeliveryResult}
use notifykit.Notify.Backoff.{RetryConfig, retry_delay}
use notifykit.Notify.Retry.{
  Runtime, Send, Outcome, max_attempts, before_attempt, after_attempt, with_retry,
}
use notifykit.Notify.Retry.Rule.{Leaves, attempt_round-cases, with_retry-Post}

-- The attempts that a Count allows: Count + 1, but one where Count is negative or the largest int.
abbrev pub attempts_of : ℤ → ℕ
attempts_of (pos c) = if c == max_int64 then 1 else c + 1
attempts_of (negsuc c) = 1

-- For every int64 Count the loop has Count + 1 rounds, but one round where Count is negative, and
-- one where it is the largest int64, at which Count + 1 wraps.
pub max_attempts_count :
    (cfg : RetryConfig) → IsInt64 cfg.count → max_attempts cfg ≡ attempts_of cfg.count
unfolding max_attempts
max_attempts_count cfg h = ground arith

-- A counter of the calls of `fn`: it goes up by one with each, and waiting leaves it.
pub record Counts {World : Type 0} (rt : Runtime World) (fn : Send World) (calls : World → ℕ)
    : Type 0 where
  pub on_send : (w : World) → calls (fn w).2 ≡ calls w + 1
  pub on_await : (d : ℤ) (w : World) → calls (rt.await d w).1 ≡ calls w

module _ {World : Type 0} (rt : Runtime World) (cfg : RetryConfig) (fn : Send World)
    (calls : World → ℕ) (c : Counts rt fn calls) where
  calls-before_attempt :
      (attempt : ℕ) (r : DeliveryResult) (w : World)
      → calls (before_attempt rt cfg attempt r w).1 ≡ calls w
  unfolding before_attempt
  calls-before_attempt attempt r w =
      ground (arith, c.on_await (retry_delay (rt.random w) cfg attempt r) w)

  abbrev Counted : World → ℕ → DeliveryResult → World → Type 0
  Counted start executed r w = calls w ≡ calls start + executed

  abbrev CountedAll : World → Outcome World → Type 0
  CountedAll start o = (calls o.world ≡ calls start + o.attempts) × (o.attempts ≤ max_attempts cfg)

  after_attempt-Counted :
      (start : World) (executed : ℕ) (r : DeliveryResult) (e : Option Error) (w : World)
      → executed < max_attempts cfg
      → calls w ≡ calls start + suc executed
      → Leaves
          (Counted start)
          (CountedAll start)
          executed
          (after_attempt rt cfg (suc executed) r e w)
  unfolding after_attempt
  after_attempt-Counted start executed r none w l h = ground arith
  after_attempt-Counted start executed r (some e) w l h = ground arith

  -- The number of attempts that withRetry returns is the number of times that it called its
  -- function, and at most the maximum.
  pub calls-with_retry :
      (w : World)
      → let o = with_retry rt cfg fn w in
        (calls o.world ≡ calls w + o.attempts) × (o.attempts ≤ max_attempts cfg)
  calls-with_retry start =
      with_retry-Post rt cfg fn (Counted start) (CountedAll start)
        (λ executed r w l i.
          let same = calls-before_attempt executed r w in
          attempt_round-cases rt cfg fn (λ x. Leaves (Counted start) (CountedAll start) executed x)
            executed r w (λ e s. (omega (arith, same), omega arith))
            (λ e s k. (omega (arith, same), omega arith))
            (λ s k.
              after_attempt-Counted start executed _ _ _ l
                (omega (arith, same, c.on_send (before_attempt rt cfg executed r w).1))))
        start (omega arith)
