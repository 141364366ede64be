-- ===== src/Targets/Email/Message.antt =====
-- targets/email/email.go: the text of a message.
pub mod Body
pub mod Lines
pub mod RoundTrip
use notifykit.Base.{
  ℕ, Bool, true, false, ◌&&◌, Option, none, some, List, [], ◌∷◌, ◌++◌, map, leb, is_empty,
  if◌then◌else◌,
}
use notifykit.Text.{Text, bytes}
use notifykit.Text.Runes.{Chunk, chunks, trim_space}
use notifykit.Text.Strings.{has_suffix, replace_all, join_texts, sort_texts}
use notifykit.Notify.Receivers.{lookup}
use notifykit.Notify.Result.{Result, ok, err}
use notifykit.Targets.Email.Config.{Email, BodyFormat, plain}
use notifykit.Targets.Email.Mailbox.{Mail, parse_mailbox}

abbrev pub crlf : Text
crlf = 13 ∷ 10 ∷ []

unfoldable pub body_content_type : BodyFormat → Text
body_content_type plain = bytes "text/plain"
body_content_type format = bytes "text/html"

unfoldable pub all_ascii : List Chunk → Bool
all_ascii [] = true
all_ascii ((r, t) ∷ cs) = leb r 127 && all_ascii cs

unfoldable pub is_ascii : Text → Bool
is_ascii value = all_ascii (chunks value)

unfoldable pub normalize_body : Text → Text
normalize_body body =
    let unified = replace_all (replace_all body crlf (10 ∷ [])) (13 ∷ []) (10 ∷ []) in
    replace_all unified (10 ∷ []) crlf

abbrev pub header_line : Text → Text → Text
header_line name value = name ++ (bytes ": " ++ value)

-- The value of a key that the map has.
abbrev pub value_of : Text → List (Text × Text) → Text
value_of name headers = elim (lookup name headers) [ none ↦ [] | some value ↦ value ]

abbrev pub custom_lines : List Text → List (Text × Text) → List Text
custom_lines [] headers = []
custom_lines (name ∷ names) headers =
    header_line name (value_of name headers) ∷ custom_lines names headers

abbrev pub keys : List (Text × Text) → List Text
keys [] = []
keys ((name, value) ∷ headers) = name ∷ keys headers

unfoldable pub append_headers : List Text → List (Text × Text) → List Text
unfolding sort_texts lookup
append_headers lines headers = lines ++ custom_lines (sort_texts (keys headers)) headers

-- The loop that writes the header lines.
unfoldable pub write_lines : List Text → Text
write_lines [] = []
write_lines (line ∷ lines) =
    let rest = write_lines lines in
    if is_empty (trim_space line) then rest else line ++ (crlf ++ rest)

unfoldable pub write_body : Text → Text
write_body body = if has_suffix crlf body then body else body ++ crlf

abbrev pub constant_headers : BodyFormat → List Text
constant_headers format =
    header_line (bytes "MIME-Version") (bytes "1.0")
    ∷ header_line (bytes "Content-Type") (body_content_type format ++ bytes "; charset=utf-8")
    ∷ header_line (bytes "Content-Transfer-Encoding") (bytes "8bit")
    ∷ []

module _ (mail : Mail) where
  unfoldable pub format_mailbox : Text → Text
  format_mailbox value = elim (parse_mailbox mail value) [
    | err e ↦ value
    | ok parsed ↦ parsed.shown
  ]

  unfoldable pub format_mailboxes : List Text → Text
  unfolding format_mailbox
  format_mailboxes values = join_texts (map format_mailbox values) (bytes ", ")

  unfoldable pub encode_subject : Text → Text
  encode_subject value = if is_ascii value then value else mail.q_encode value

  module _ {Data : Type 0} where
    unfoldable pub standard_lines : Email Data → Text → List Text
    standard_lines t subject =
        header_line (bytes "From") (format_mailbox t.sender)
        ∷ header_line (bytes "To") (format_mailboxes t.recipients)
        ∷ header_line (bytes "Subject") (encode_subject subject)
        ∷ constant_headers t.body_format

    unfoldable pub cc_lines : Email Data → List Text
    cc_lines t =
        if is_empty t.cc_recipients
        then []
        else header_line (bytes "Cc") (format_mailboxes t.cc_recipients) ∷ []

    unfoldable pub header_lines : Email Data → Text → List Text
    header_lines t subject = append_headers (standard_lines t subject ++ cc_lines t) t.headers

    unfoldable pub build_email : Email Data → Text → Text → Text
    build_email t subject body =
        write_lines (header_lines t subject) ++ (crlf ++ write_body (normalize_body body))
