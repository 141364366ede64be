-- ===== src/Tests/Retry.antt =====
-- Runs of withRetry, of the waits and of the policies at concrete inputs, and an instance of each
-- theorem about them.
use notifykit.Tests.Common.{live_runtime}
use notifykit.Base.{
  ℕ, suc, ◌+◌, ◌≤◌, ◌≡◌, refl, ℤ, pos, ◌≤ℤ◌, max_ℤ, false, none, some, [], ltb, if◌then◌else◌,
  arith, max_int64,
}
use notifykit.Text.{bytes}
use notifykit.Notify.Error.{Error, message, deadline_exceeded, DeliveryResult, find_as}
use notifykit.Notify.Error.Marks.{is_permanent}
use notifykit.Notify.Policy.{retry_on_server_error}
use notifykit.Notify.Backoff.{RetryConfig, retry_backoff, retry_delay}
use notifykit.Notify.Backoff.Closed.{retry_backoff_closed}
use notifykit.Notify.Backoff.Bounds.{retry_delay_bounds, longest}
use notifykit.Notify.Retry.{Runtime, Send, max_attempts, with_retry, gives_up}
use notifykit.Notify.Retry.Bounds.{Counts, calls-with_retry, max_attempts_count}
use notifykit.Notify.Retry.Outcomes.{Explains, with_retry-Explains}
use notifykit.Notify.Retry.Outage.{IsOutage, Survives, with_retry-Survives}

abbrev unavailable : Error
unavailable = message (bytes "unavailable") []

abbrev status : ℕ → DeliveryResult
status code = record { status = []; status_code = pos code; response = []; retry_after = pos 0 }

abbrev done_runtime : Runtime ℕ
done_runtime = record {
  ctx_err = λ w. some deadline_exceeded;
  await = λ d w. (false, w);
  random = λ w n. pos 0;
}

-- The first two calls fail with the status 503.
abbrev flaky : Send ℕ
flaky w = if ltb w 2 then (status 503, some unavailable, w + 1) else (status 200, none, w + 1)

abbrev config : ℤ → RetryConfig
config count = record {
  count = count;
  backoff = pos 100;
  max_backoff = pos 250;
  jitter = false;
  policy = some retry_on_server_error;
}

flaky_recovers : (with_retry live_runtime (config (pos 4)) flaky 0).attempts ≡ 3
unfolding with_retry max_attempts retry_delay gives_up retry_on_server_error is_permanent find_as
flaky_recovers = refl

flaky_exhausts : (with_retry live_runtime (config (pos 1)) flaky 0).error ≡ some unavailable
unfolding with_retry max_attempts retry_delay gives_up retry_on_server_error is_permanent find_as
flaky_exhausts = refl

-- A Count of the largest int64 wraps: one attempt and no retry.
largest_count : (with_retry live_runtime (config (pos max_int64)) flaky 0).attempts ≡ 1
unfolding with_retry max_attempts retry_delay gives_up retry_on_server_error is_permanent find_as
largest_count = refl

with_retry-Explains_example :
    Explains live_runtime (config (pos 4)) flaky (with_retry live_runtime (config (pos 4)) flaky 0)
with_retry-Explains_example = with_retry-Explains live_runtime (config (pos 4)) flaky 0

flaky-Counts : Counts live_runtime flaky (λ w. w)
flaky-Counts = record { on_send = λ w. ground arith; on_await = λ d w. refl }

calls-with_retry_example :
    let o = with_retry live_runtime (config (pos 4)) flaky 0 in
    (o.world ≡ 0 + o.attempts) × (o.attempts ≤ max_attempts (config (pos 4)))
calls-with_retry_example =
    calls-with_retry live_runtime (config (pos 4)) flaky (λ w. w) flaky-Counts 0

abbrev FailuresLeft : ℕ → ℕ → Type 0
FailuresLeft k w = k + w ≡ 2

flaky-IsOutage : IsOutage live_runtime (config (pos 4)) flaky FailuresLeft
flaky-IsOutage = record {
  live = λ k w s. refl;
  fires = λ k w d s. refl;
  waits = λ k w d s. s;
  fails = λ k w s. (unavailable, fails k w s, retried k w s);
  goes_on = λ k w s. goes_on k w s;
  recovers = λ w s. ground arith;
}
  where
    fails : (k w : ℕ) → FailuresLeft (suc k) w → (flaky w).1 ≡ some unavailable
    fails k w s = ground arith

    retried :
        (k w : ℕ)
        → FailuresLeft (suc k) w
        → gives_up (some retry_on_server_error) (flaky w).0 unavailable ≡ false
    retried k w s = unfold gives_up retry_on_server_error is_permanent find_as in ground arith

    goes_on : (k w : ℕ) → FailuresLeft (suc k) w → FailuresLeft k (flaky w).2
    goes_on k w s = ground arith

with_retry-Survives_example :
    Survives (config (pos 4)) 2 (with_retry live_runtime (config (pos 4)) flaky 0)
with_retry-Survives_example =
    with_retry-Survives live_runtime (config (pos 4)) flaky FailuresLeft flaky-IsOutage 2 0 refl

max_attempts_count_example : max_attempts (config (pos 4)) ≡ 5
max_attempts_count_example = max_attempts_count (config (pos 4)) (omega arith, omega arith)

retry_backoff_closed_example : retry_backoff (λ n. n) (config (pos 4)) 2 ≡ pos 200
retry_backoff_closed_example =
    retry_backoff_closed (λ n. n) (config (pos 4)) 100 2 refl (omega arith) (omega arith)
      (omega arith)

retry_delay_bounds_example :
    let wait = retry_delay (λ n. pos 0) (config (pos 4)) 2 (status 503) in
    (pos 0 ≤ℤ wait) × (pos 0 ≤ℤ wait) × (wait ≤ℤ max_ℤ (longest (config (pos 4))) (pos 0))
retry_delay_bounds_example =
    retry_delay_bounds (λ n. pos 0) (config (pos 4)) 2 (status 503) (λ n h. (omega arith, h))
      (omega arith)
