-- ===== src/Notify/Retry.antt =====
-- notify/retry.go, withRetry and waitForRetry.
-- What the function does outside itself goes through a world: the context, the timer and the random
-- source are a `Runtime`, and the callback `fn` takes a world to its results and the next world.
-- Log lines are left out.
pub mod Rule
pub mod Bounds
pub mod Outcomes
pub mod Outage
pub mod Giving
pub mod Invariant
use notifykit.Base.{
  ℕ, zero, suc, ◌≤◌, ℤ, pos, pos_part, ◌+ℤ◌, Bool, true, false, not, ◌||◌, Option, none, some, [],
  ltb, leb, ltb_ℤ, max_ℤ, wrap64, if◌then◌else◌,
}
use notifykit.Notify.Error.{Error, DeliveryResult}
use notifykit.Notify.Policy.{RetryPolicy}
use notifykit.Notify.Backoff.{RetryConfig, retry_delay}

pub record Runtime (World : Type 0) : Type 0 where
  -- ctx.Err()
  pub ctx_err : World → Option Error
  -- The select of waitForRetry over that long a timer: whether it took the timer's case.
  pub await : ℤ → World → Bool × World
  -- rand.Int64N
  pub random : World → ℤ → ℤ

-- The callback of withRetry.
abbrev pub Send : Type 0 → Type 0
Send World = World → DeliveryResult × Option Error × World

-- What withRetry returns, and the world that it leaves.
pub record Outcome (World : Type 0) : Type 0 where
  pub result : DeliveryResult
  pub attempts : ℕ
  pub error : Option Error
  pub world : World

-- One round of the loop returns, or goes on with the last result and error.
pub data Round (World : Type 0) : Type 0 where
  done : Outcome World → Round World
  again : DeliveryResult → Error → World → Round World

abbrev pub zero_result : DeliveryResult
zero_result = record { status = []; status_code = pos 0; response = []; retry_after = pos 0 }

-- cfg.Count+1 is an int, which wraps.
unfoldable pub max_attempts : RetryConfig → ℕ
max_attempts cfg = pos_part (max_ℤ (wrap64 (cfg.count +ℤ pos 1)) (pos 1))

-- A nil policy, or one that refuses.
unfoldable pub gives_up : Option RetryPolicy → DeliveryResult → Error → Bool
gives_up none result err = true
gives_up (some policy) result err = not (policy result (some err))

module _ {World : Type 0} (rt : Runtime World) where
  unfoldable pub wait_for_retry : ℤ → World → Option Error × World
  wait_for_retry duration w =
      let (fired, w') = rt.await duration w in (if fired then none else rt.ctx_err w', w')

  -- The wait before a retry, with its error.
  unfoldable pub before_attempt : RetryConfig → ℕ → DeliveryResult → World → Option Error × World
  unfolding wait_for_retry
  before_attempt cfg attempt last_result w =
      let wait = retry_delay (rt.random w) cfg attempt last_result in
      if ltb 0 attempt
      then (if ltb_ℤ (pos 0) wait then wait_for_retry wait w else (none, w))
      else (none, w)

  -- From the return of `fn` to the end of the round; `executed` counts this call.
  unfoldable pub after_attempt :
      RetryConfig → ℕ → DeliveryResult → Option Error → World → Round World
  after_attempt cfg executed result none w =
      done (record { result = result; attempts = executed; error = none; world = w })
  after_attempt cfg executed result (some err) w = elim (rt.ctx_err w) [
    | some e ↦ done (record { result = result; attempts = executed; error = some e; world = w })
    | none ↦
        if leb (max_attempts cfg) executed || gives_up cfg.policy result err
        then done (record { result = result; attempts = executed; error = some err; world = w })
        else again result err w
  ]

  unfoldable pub attempt_round :
      RetryConfig → Send World → ℕ → ℕ → DeliveryResult → World → Round World
  attempt_round cfg fn attempt executed last_result w =
      let (stop, w₁) = before_attempt cfg attempt last_result w in
      elim stop [
        | some e ↦
            done (record { result = last_result; attempts = executed; error = some e; world = w₁ })
        | none ↦ elim (rt.ctx_err w₁) [
          | some e ↦
              done
                (record { result = last_result; attempts = executed; error = some e; world = w₁ })
          | none ↦ let (result, err, w₂) = fn w₁ in after_attempt cfg (suc executed) result err w₂
        ]
      ]

  -- The loop, with the rounds left.
  unfoldable pub retry_loop :
      RetryConfig → Send World → ℕ → ℕ → ℕ → DeliveryResult → Option Error → World → Outcome World
  retry_loop cfg fn zero attempt executed last_result last_err w = record {
    result = last_result;
    attempts = executed;
    error = last_err;
    world = w;
  }
  retry_loop cfg fn (suc rounds) attempt executed last_result last_err w =
      elim (attempt_round cfg fn attempt executed last_result w) [
        | done o ↦ o
        | again result err w' ↦
            retry_loop cfg fn rounds (suc attempt) (suc executed) result (some err) w'
      ]

  unfoldable pub with_retry : RetryConfig → Send World → World → Outcome World
  unfolding retry_loop attempt_round before_attempt after_attempt
  with_retry cfg fn w = retry_loop cfg fn (max_attempts cfg) 0 0 zero_result none w
