-- ===== src/Notify/Policy.antt =====
-- notify/retry_policy.go: the built-in retry policies.
pub mod Laws
use notifykit.Base.{
  ℤ, pos, Bool, true, false, not, ◌&&◌, ◌||◌, Option, none, some, List, [], ◌∷◌, leb_ℤ,
}
use notifykit.Notify.Error.{Error, DeliveryResult}
use notifykit.Notify.Error.Marks.{is_permanent, is_transport, is_timeout_error}

-- types.go, RetryPolicy. A nil policy is `none` of `Option RetryPolicy`.
abbrev pub RetryPolicy : Type 0
RetryPolicy = DeliveryResult → Option Error → Bool

unfoldable pub retry_on_error : RetryPolicy
retry_on_error result none = false
retry_on_error result (some e) = not (is_permanent (some e))

-- Whether the key `code` is in the map built from `codes`.
unfoldable pub is_allowed : List ℤ → ℤ → Bool
is_allowed [] code = false
is_allowed (c ∷ codes) code = (leb_ℤ c code && leb_ℤ code c) || is_allowed codes code

unfoldable pub retry_on_status_code : List ℤ → RetryPolicy
unfolding is_allowed
retry_on_status_code codes result none = false
retry_on_status_code codes result (some e) =
    not (is_permanent (some e)) && is_allowed codes result.status_code

unfoldable pub retry_on_server_error : RetryPolicy
retry_on_server_error result none = false
retry_on_server_error result (some e) =
    not (is_permanent (some e))
    && (leb_ℤ (pos 500) result.status_code && leb_ℤ result.status_code (pos 599))

unfoldable pub retry_on_timeout : RetryPolicy
retry_on_timeout result none = false
retry_on_timeout result (some e) = is_transport (some e) && is_timeout_error e

unfoldable pub retry_on_network_error : RetryPolicy
retry_on_network_error result none = false
retry_on_network_error result (some e) = is_transport (some e) && not (is_timeout_error e)

unfoldable pub any_retry_policy : List (Option RetryPolicy) → RetryPolicy
any_retry_policy [] result err = false
any_retry_policy (none ∷ policies) result err = any_retry_policy policies result err
any_retry_policy (some policy ∷ policies) result err =
    policy result err || any_retry_policy policies result err

unfoldable pub default_retry_policy : RetryPolicy
unfolding any_retry_policy retry_on_timeout retry_on_network_error retry_on_status_code
    retry_on_server_error
default_retry_policy = any_retry_policy (
    some retry_on_timeout
    ∷ some retry_on_network_error
    ∷ some (retry_on_status_code (pos 408 ∷ pos 429 ∷ []))
    ∷ some retry_on_server_error
    ∷ [])
