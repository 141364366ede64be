-- ===== src/Notify/Error/Texts.antt =====
-- The Error methods: notify/error.go, targets/email/email.go (OperationError), targets/email/proxy.go
-- (ProxyError), targets/webhook/webhook.go (redactedError); notify/manager.go, the texts of its
-- errors. The texts that fmt, errors, context and time make are the record Formats.
use notifykit.Base.{ℕ, ℤ, pos, Bool, List, [], ◌∷◌, ◌++◌, if◌then◌else◌}
use notifykit.Text.{Text, bytes}
use notifykit.Text.Strings.{itoa}
use notifykit.Notify.Error.{
  Error, Errors, nil, cons, message, wrapped, joined, canceled, deadline_exceeded, manager_started,
  manager_stopped, permanent_error, transport_error, delivery_error, operation_error, proxy_error,
  redacted_error, foreign, foreign_wrapping,
}
use notifykit.Notify.Error.Marks.{is_timeout_error}

pub record Formats : Type 0 where
  -- fmt.Sprintf: the format, and the text that each verb formats, a number by its digits
  pub sprintf : Text → List Text → Text
  -- the Error method of what errors.Join returns
  pub lines : List Text → Text
  -- context.Canceled and context.DeadlineExceeded
  pub canceled_text : Text
  pub deadline_text : Text
  -- the method String of a time.Duration
  pub duration : ℤ → Text

module _ (fmt : Formats) where
  -- DeliveryError, from the text of its cause.
  abbrev pub delivery_text : Text → Text → ℕ → ℕ → Text → Text
  delivery_text id type_name index attempts cause =
      fmt.sprintf (bytes "receiver %q target %s[%d] failed after %d attempts: %v")
        (id ∷ type_name ∷ itoa (pos index) ∷ itoa (pos attempts) ∷ cause ∷ [])

  -- OperationError, from the answer of isTimeout and the text of its cause.
  abbrev pub operation_text : Text → ℤ → Bool → Text → Text
  operation_text operation timeout timed_out cause =
      if timed_out
      then fmt.sprintf (bytes "SMTP %s timed out after %s") (operation ∷ fmt.duration timeout ∷ [])
      else fmt.sprintf (bytes "SMTP %s failed: %v") (operation ∷ cause ∷ [])

  -- ProxyError, from its status.
  abbrev pub proxy_text : Text → Text
  proxy_text status = bytes "SMTP proxy CONNECT failed: " ++ status

  unfoldable mutual
    pub error_text : Error → Text
    error_text (message s args) = fmt.sprintf s args
    error_text (wrapped s args e) = fmt.sprintf s (args ++ error_text e ∷ [])
    error_text (joined es) = fmt.lines (error_texts es)
    error_text canceled = fmt.canceled_text
    error_text deadline_exceeded = fmt.deadline_text
    error_text manager_started = bytes "manager already started"
    error_text manager_stopped = bytes "manager stopped"
    error_text (permanent_error e) = error_text e
    error_text (transport_error e) = error_text e
    error_text (delivery_error id type_name index attempts result e) =
        delivery_text id type_name index attempts (error_text e)
    error_text (operation_error operation timeout e) =
        operation_text operation timeout (is_timeout_error e) (error_text e)
    error_text (proxy_error code status) = proxy_text status
    error_text (redacted_error e text) = text
    error_text (foreign x) = x.label
    error_text (foreign_wrapping x e) = x.label

    pub error_texts : Errors → List Text
    error_texts nil = []
    error_texts (cons e es) = error_text e ∷ error_texts es
