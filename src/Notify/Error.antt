-- ===== src/Notify/Error.antt =====
-- notify/error.go: error chains, and the two marks that the retry policies read.
-- An `error` interface value is `Option Error`, with `none` for nil. A constructor stands for each
-- way in which the repository makes an error; an error of another package is `foreign`, described by
-- what the code asks of it.
pub mod Marks
pub mod MarkLaws
pub mod Texts
pub mod Private
use notifykit.Base.{ℕ, ℤ, Bool, Option, none, some, List}
use notifykit.Text.{Text}

-- types.go, DeliveryResult. Status codes and durations are int and int64.
pub record DeliveryResult : Type 0 where
  pub status : Text
  pub status_code : ℤ
  pub response : Text
  pub retry_after : ℤ

-- What `errors.As` and `errors.Is` find in an error of another package.
pub record Foreign : Type 0 where
  pub label : Text
  -- Whether the error is a net.Error, and then the answer of its method Timeout.
  pub timeout : Option Bool
  -- The reply code of a textproto.Error.
  pub reply_code : Option ℤ
  -- One of the certificate errors of crypto/tls and crypto/x509.
  pub is_certificate : Bool
  -- io.EOF or io.ErrUnexpectedEOF.
  pub is_eof : Bool
  -- A url.Error.
  pub is_url : Bool

mutual
  pub data Error : Type 0 where
    -- errors.New, or fmt.Errorf without %w: the format, and the texts that it quotes
    message : Text → List Text → Error
    -- fmt.Errorf with %w
    wrapped : Text → List Text → Error → Error
    -- errors.Join
    joined : Errors → Error
    canceled : Error
    deadline_exceeded : Error
    manager_started : Error
    manager_stopped : Error
    permanent_error : Error → Error
    transport_error : Error → Error
    -- receiver ID, target type, target index, attempts, result, cause
    delivery_error : Text → Text → ℕ → ℕ → DeliveryResult → Error → Error
    -- targets/email: operation, timeout, cause
    operation_error : Text → ℤ → Error → Error
    -- targets/email: status code, status
    proxy_error : ℤ → Text → Error
    -- targets/webhook: cause, message
    redacted_error : Error → Text → Error
    foreign : Foreign → Error
    foreign_wrapping : Foreign → Error → Error

  pub data Errors : Type 0 where
    nil : Errors
    cons : Error → Errors → Errors

abbrev pub or_else {ℓ} : {A : Type ℓ} → Option A → Option A → Option A
or_else none b = b
or_else (some a) b = some a

-- The depth-first search of `errors.As`: the error itself, then what its method Unwrap returns.
unfoldable mutual
  pub find_as {ℓ} : {A : Type ℓ} → (Error → Option A) → Error → Option A
  find_as f (message s args) = f (message s args)
  find_as f (wrapped s args e) = or_else (f (wrapped s args e)) (find_as f e)
  find_as f (joined es) = or_else (f (joined es)) (find_as_any f es)
  find_as f canceled = f canceled
  find_as f deadline_exceeded = f deadline_exceeded
  find_as f manager_started = f manager_started
  find_as f manager_stopped = f manager_stopped
  find_as f (permanent_error e) = or_else (f (permanent_error e)) (find_as f e)
  find_as f (transport_error e) = or_else (f (transport_error e)) (find_as f e)
  find_as f (delivery_error r t i n d e) = or_else (f (delivery_error r t i n d e)) (find_as f e)
  find_as f (operation_error o t e) = or_else (f (operation_error o t e)) (find_as f e)
  find_as f (proxy_error c s) = f (proxy_error c s)
  find_as f (redacted_error e s) = or_else (f (redacted_error e s)) (find_as f e)
  find_as f (foreign x) = f (foreign x)
  find_as f (foreign_wrapping x e) = or_else (f (foreign_wrapping x e)) (find_as f e)

  pub find_as_any {ℓ} : {A : Type ℓ} → (Error → Option A) → Errors → Option A
  find_as_any f nil = none
  find_as_any f (cons e es) = or_else (find_as f e) (find_as_any f es)
