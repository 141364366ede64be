-- ===== src/Tests/Errors.antt =====
-- The marks and the policies at concrete errors.
use notifykit.Base.{◌≡◌, refl, pos, true, false, some, [], ◌∷◌}
use notifykit.Text.{bytes}
use notifykit.Notify.Error.{
  Error, nil, cons, wrapped, joined, deadline_exceeded, permanent_error, transport_error,
  DeliveryResult, find_as,
}
use notifykit.Notify.Error.Marks.{is_permanent, is_transport, transport, is_timeout_error}
use notifykit.Notify.Policy.{default_retry_policy}

abbrev refused : Error
refused = wrapped (bytes "connect %q: %w") (bytes "smtp" ∷ []) deadline_exceeded

abbrev response : DeliveryResult
response = record { status = []; status_code = pos 503; response = []; retry_after = pos 0 }

-- A permanent error under a join and a transport mark makes the whole chain permanent.
joined_permanent :
    is_transport
      (some (transport_error (joined (cons refused (cons (permanent_error refused) nil)))))
    ≡ false
unfolding is_transport is_permanent find_as
joined_permanent = refl

timeout_retried : default_retry_policy response (transport (some refused)) ≡ true
unfolding default_retry_policy transport is_transport is_permanent is_timeout_error find_as
timeout_retried = refl
