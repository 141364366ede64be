-- ===== src/Notify/Error/Marks.antt =====
-- notify/error.go: Permanent, IsPermanent, Transport and IsTransport.
use notifykit.Base.{Bool, true, false, ◌||◌, Option, none, some, if◌then◌else◌}
use notifykit.Notify.Error.{
  Error, find_as, deadline_exceeded, permanent_error, transport_error, foreign, foreign_wrapping,
}

abbrev pub is_some {ℓ} : {A : Type ℓ} → Option A → Bool
is_some none = false
is_some (some a) = true

-- The type tests that `errors.As` makes on one error of the chain.
abbrev pub as_permanent : Error → Option (Unit {0})
as_permanent (permanent_error e) = some tt
as_permanent _ = none

abbrev pub as_transport : Error → Option (Unit {0})
as_transport (transport_error e) = some tt
as_transport _ = none

-- `e == context.DeadlineExceeded`, the test of `errors.Is`.
abbrev pub is_deadline : Error → Option (Unit {0})
is_deadline deadline_exceeded = some tt
is_deadline _ = none

-- A net.Error, with the answer of Timeout. context.DeadlineExceeded is one.
abbrev pub as_net_error : Error → Option Bool
as_net_error deadline_exceeded = some true
as_net_error (foreign x) = x.timeout
as_net_error (foreign_wrapping x e) = x.timeout
as_net_error _ = none

unfoldable pub is_permanent : Option Error → Bool
is_permanent none = false
is_permanent (some e) = is_some (find_as as_permanent e)

unfoldable pub is_transport : Option Error → Bool
is_transport none = false
is_transport (some e) = if is_permanent (some e) then false else is_some (find_as as_transport e)

unfoldable pub permanent : Option Error → Option Error
permanent none = none
permanent (some e) = if is_permanent (some e) then some e else some (permanent_error e)

unfoldable pub transport : Option Error → Option Error
transport none = none
transport (some e) =
    if is_permanent (some e) || is_transport (some e) then some e else some (transport_error e)

abbrev answer : Option Bool → Bool
answer none = false
answer (some b) = b

-- notify/retry_policy.go, isTimeoutError; targets/email/email.go has the same function.
unfoldable pub is_timeout_error : Error → Bool
is_timeout_error e = is_some (find_as is_deadline e) || answer (find_as as_net_error e)
