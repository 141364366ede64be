-- ===== src/Targets/Webhook/Errors.antt =====
-- targets/webhook/webhook.go: redactedError, safeWebhookError and responseError.
use notifykit.Base.{◌≡◌, ◌⊎◌, Bool, true, false, Option, none, some, [], ◌∷◌, arith, if◌then◌else◌}
use notifykit.Text.{Text, bytes}
use notifykit.Notify.Error.{Error, find_as, message, redacted_error, foreign, foreign_wrapping}
use notifykit.Notify.Error.Marks.{is_some, is_permanent, is_transport, is_timeout_error}

abbrev pub as_redacted : Error → Option (Unit {0})
as_redacted (redacted_error e s) = some tt
as_redacted _ = none

abbrev found_if : Bool → Option (Unit {0})
found_if true = some tt
found_if false = none

abbrev pub as_url_error : Error → Option (Unit {0})
as_url_error (foreign x) = found_if x.is_url
as_url_error (foreign_wrapping x e) = found_if x.is_url
as_url_error _ = none

-- safeWebhookError of an error that is not nil.
unfoldable pub safe_webhook_error : Error → Error
safe_webhook_error e =
    if is_some (find_as as_redacted e)
    then e
    else if is_some (find_as as_url_error e)
    then redacted_error e (bytes "webhook URL or request failed")
    else e

unfoldable pub response_error : Text → Text → Error
response_error target status =
    message (bytes "webhook %q delivery failed: %s") (target ∷ status ∷ [])

-- Redaction never leaves a url.Error, whose text holds the URL, without a redacted error around or
-- beside it in the chain; it keeps what the retry policies ask of the error; and redacting twice is
-- redacting once.
pub safe_webhook_error_laws :
    (e : Error)
    → ((is_some (find_as as_redacted (safe_webhook_error e)) ≡ true)
        ⊎ (is_some (find_as as_url_error (safe_webhook_error e)) ≡ false))
      × (is_permanent (some (safe_webhook_error e)) ≡ is_permanent (some e))
      × (is_transport (some (safe_webhook_error e)) ≡ is_transport (some e))
      × (is_timeout_error (safe_webhook_error e) ≡ is_timeout_error e)
      × (safe_webhook_error (safe_webhook_error e) ≡ safe_webhook_error e)
unfolding safe_webhook_error is_permanent is_transport is_timeout_error find_as
safe_webhook_error_laws e = ground arith
