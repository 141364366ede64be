-- ===== src/Targets/Email/Classify.antt =====
-- targets/email/email.go: classifySMTPError.
pub mod Marks
use notifykit.Base.{
  ℤ, pos, Bool, true, false, ◌&&◌, ◌||◌, Option, none, some, leb_ℤ, ltb_ℤ, if◌then◌else◌,
}
use notifykit.Notify.Error.{Error, find_as, canceled, proxy_error, foreign, foreign_wrapping}
use notifykit.Notify.Error.Marks.{
  is_some, as_net_error, is_deadline, is_permanent, permanent, transport,
}

abbrev pub found_if : Bool → Option (Unit {0})
found_if true = some tt
found_if false = none

-- The type tests of errors.As and the comparisons of errors.Is, on one error of the chain.
abbrev pub as_proxy_error : Error → Option ℤ
as_proxy_error (proxy_error code status) = some code
as_proxy_error _ = none

abbrev pub as_reply : Error → Option ℤ
as_reply (foreign x) = x.reply_code
as_reply (foreign_wrapping x e) = x.reply_code
as_reply _ = none

abbrev pub as_certificate : Error → Option (Unit {0})
as_certificate (foreign x) = found_if x.is_certificate
as_certificate (foreign_wrapping x e) = found_if x.is_certificate
as_certificate _ = none

abbrev pub is_end_of_file : Error → Option (Unit {0})
is_end_of_file (foreign x) = found_if x.is_eof
is_end_of_file (foreign_wrapping x e) = found_if x.is_eof
is_end_of_file _ = none

abbrev pub is_canceled : Error → Option (Unit {0})
is_canceled canceled = some tt
is_canceled _ = none

-- A network failure, the end of the stream, or the end of the context.
unfoldable pub is_connection_loss : Error → Bool
is_connection_loss e =
    is_some (find_as as_net_error e)
    || is_some (find_as is_end_of_file e)
    || is_some (find_as is_deadline e)
    || is_some (find_as is_canceled e)

-- The answers of a proxy, and the replies of a server, that are temporary.
unfoldable pub is_temporary_status : ℤ → Bool
is_temporary_status code =
    (leb_ℤ (pos 408) code && leb_ℤ code (pos 408))
    || (leb_ℤ (pos 429) code && leb_ℤ code (pos 429))
    || leb_ℤ (pos 500) code

unfoldable pub is_temporary_reply : ℤ → Bool
is_temporary_reply code = leb_ℤ (pos 400) code && ltb_ℤ code (pos 500)

unfoldable pub mark_temporary : Bool → Error → Option Error
mark_temporary temporary e = if temporary then transport (some e) else permanent (some e)

unfoldable pub classify_local : Error → Option Error
classify_local e =
    if is_some (find_as as_certificate e)
    then permanent (some e)
    else mark_temporary (is_connection_loss e) e

unfoldable pub classify_smtp_error : Option Error → Option Error
classify_smtp_error none = none
classify_smtp_error (some e) =
    if is_permanent (some e) then some e else elim (find_as as_proxy_error e) [
      | some code ↦ mark_temporary (is_temporary_status code) e
      | none ↦ elim (find_as as_reply e) [
        | some code ↦ mark_temporary (is_temporary_reply code) e
        | none ↦ classify_local e
      ]
    ]
