-- ===== src/Notify/Backoff.antt =====
-- notify/retry.go: retryDelay, retryBackoff, jitterBackoff and doubleDuration.
-- A time.Duration is an int64 of nanoseconds. `retry` is the loop index of withRetry, which is not
-- negative. The random number of jitterBackoff is the argument `rand`, a function of its bound.
pub mod Closed
pub mod Bounds
use notifykit.Base.{
  ℕ, zero, suc, ◌-◌, ◌/◌, ℤ, pos, ◌*ℤ◌, Bool, true, false, ◌&&◌, ◌||◌, Option, ltb_ℤ, leb_ℤ, max_ℤ,
  min_ℤ, max_int64, wrap64, leb, if◌then◌else◌,
}
use notifykit.Notify.Error.{DeliveryResult}
use notifykit.Notify.Policy.{RetryPolicy}

-- types.go, RetryConfig.
pub record RetryConfig : Type 0 where
  pub count : ℤ
  pub backoff : ℤ
  pub max_backoff : ℤ
  pub jitter : Bool
  pub policy : Option RetryPolicy

unfoldable pub double_duration : ℤ → ℤ
double_duration duration =
    if ltb_ℤ (pos (max_int64 / 2)) duration then pos max_int64 else wrap64 (duration *ℤ pos 2)

-- The loop of retryBackoff, with the rounds left.
unfoldable pub backoff_loop : RetryConfig → ℕ → ℤ → ℤ
unfolding double_duration
backoff_loop cfg zero wait = wait
backoff_loop cfg (suc rounds) wait =
    let rest = backoff_loop cfg rounds (double_duration wait) in
    if ltb_ℤ (pos 0) cfg.max_backoff && leb_ℤ cfg.max_backoff (double_duration wait)
    then cfg.max_backoff
    else rest

unfoldable pub jitter_backoff : (ℤ → ℤ) → ℤ → ℤ
jitter_backoff rand duration = if leb_ℤ duration (pos 0) then pos 0 else rand duration

unfoldable pub retry_backoff : (ℤ → ℤ) → RetryConfig → ℕ → ℤ
unfolding jitter_backoff backoff_loop
retry_backoff rand cfg retry =
    if leb_ℤ cfg.backoff (pos 0) || leb retry 0
    then pos 0
    else (let wait = backoff_loop cfg (retry - 1) cfg.backoff in
        let capped = if ltb_ℤ (pos 0) cfg.max_backoff then min_ℤ wait cfg.max_backoff else wait in
        if cfg.jitter then jitter_backoff rand capped else capped)

unfoldable pub retry_delay : (ℤ → ℤ) → RetryConfig → ℕ → DeliveryResult → ℤ
unfolding retry_backoff
retry_delay rand cfg retry result = max_ℤ (retry_backoff rand cfg retry) result.retry_after
