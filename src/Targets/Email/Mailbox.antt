-- ===== src/Targets/Email/Mailbox.antt =====
-- targets/email/email.go: addresses, recipients, and the validation of the configuration.
pub mod Valid
use notifykit.Base.{
  ℤ, pos, Bool, true, false, not, ◌&&◌, ◌||◌, Option, none, some, List, [], ◌∷◌, ◌++◌, leb_ℤ, ltb_ℤ,
  is_empty, if◌then◌else◌,
}
use notifykit.Text.{Text, bytes, text_eq}
use notifykit.Text.Runes.{trim_space}
use notifykit.Text.Strings.{to_lower}
use notifykit.Header.{valid_field_name, contains_newline}
use notifykit.Notify.Error.{Error, message, wrapped}
use notifykit.Notify.Result.{Result, ok, err, ◌>>=◌, ◌>>◌, refuse_if, map_error}
use notifykit.Targets.Email.Config.{
  Email, TlsMode, BodyFormat, required, implicit, plaintext, html, plain,
}

-- A mail.Address: its address, and what its method String gives.
pub record Mailbox : Type 0 where
  pub address : Text
  pub shown : Text

-- What the code uses of net/mail and mime: mail.ParseAddress, and QEncoding.Encode in UTF-8.
pub record Mail : Type 0 where
  pub parse_address : Text → Option Mailbox
  pub q_encode : Text → Text

unfoldable pub envelope_recipients : List Text → List Text → List Text → List Text
envelope_recipients to cc bcc = to ++ (cc ++ bcc)

unfoldable pub validate_header_name : Text → Result (Unit {0})
validate_header_name name = do
  refuse_if (is_empty name) (message (bytes "email header name must not be empty") [])
  refuse_if (not (text_eq (trim_space name) name))
      (message (bytes "email header %q must not have leading or trailing whitespace") (name ∷ []))
  refuse_if (not (valid_field_name name))
      (message (bytes "email header %q contains invalid character") (name ∷ []))

abbrev is_text_in : Text → List Text → Bool
is_text_in t [] = false
is_text_in t (u ∷ us) = text_eq t u || is_text_in t us

abbrev pub reserved_headers : List Text
reserved_headers =
    bytes "from"
    ∷ bytes "to"
    ∷ bytes "cc"
    ∷ bytes "bcc"
    ∷ bytes "subject"
    ∷ bytes "mime-version"
    ∷ bytes "content-type"
    ∷ bytes "content-transfer-encoding"
    ∷ []

-- A name comes here from validateHeaderName, so that it is ASCII.
unfoldable pub is_reserved_header : Text → Bool
unfolding to_lower
is_reserved_header name = is_text_in (to_lower name) reserved_headers

unfoldable pub validate_header_value : Text → Text → Result (Unit {0})
validate_header_value name value =
    refuse_if (contains_newline value)
      (message (bytes "email header %q value must not contain newline characters") (name ∷ []))

unfoldable pub validate_headers : List (Text × Text) → Result (Unit {0})
validate_headers [] = ok tt
validate_headers ((name, value) ∷ headers) = do
  validate_header_name name
  refuse_if (is_reserved_header name) (message (bytes "email header %q is reserved") (name ∷ []))
  validate_header_value name value
  validate_headers headers

abbrev is_known_mode : TlsMode → Bool
is_known_mode (TlsMode.unknown s) = false
is_known_mode mode = true

abbrev is_known_format : BodyFormat → Bool
is_known_format (BodyFormat.unknown s) = false
is_known_format format = true

abbrev pub is_plaintext : TlsMode → Bool
is_plaintext plaintext = true
is_plaintext mode = false

module _ (mail : Mail) where
  unfoldable pub parse_mailbox : Text → Result Mailbox
  parse_mailbox value =
      if contains_newline value
      then err (message (bytes "address must not contain newline characters") [])
      else elim (mail.parse_address (trim_space value)) [
        | none ↦ err (message (bytes "address must be a single mailbox") [])
        | some parsed ↦
            if is_empty parsed.address
            then err (message (bytes "address must be a single mailbox") [])
            else ok parsed
      ]

  -- The loop over the recipients.
  unfoldable pub validate_recipients : List Text → Result (Unit {0})
  validate_recipients [] = ok tt
  validate_recipients (r ∷ rs) = do
    _ ← map_error (wrapped (bytes "email recipient: %w") []) (parse_mailbox r)
    validate_recipients rs

  unfoldable pub validate_smtp_config : {Data : Type 0} → Email Data → Result (Unit {0})
  validate_smtp_config t = do
    refuse_if (not (is_known_mode t.tls_mode)) (message (bytes "invalid SMTP TLS mode") [])
    refuse_if (not (is_known_format t.body_format)) (message (bytes "invalid email body format") [])
    refuse_if (is_plaintext t.tls_mode && (not (is_empty t.user) || not (is_empty t.pass)))
        (message (bytes "SMTP credentials require TLS") [])
    refuse_if (is_empty (trim_space t.host)) (message (bytes "email host is required") [])
    refuse_if (leb_ℤ t.port (pos 0)) (message (bytes "email port must be greater than zero") [])
    refuse_if (ltb_ℤ (pos 65535) t.port) (message (bytes "email port must not exceed 65535") [])
    refuse_if (is_empty (trim_space t.sender)) (message (bytes "email from address is required") [])
    refuse_if (is_empty (envelope_recipients t.recipients t.cc_recipients t.bcc_recipients))
        (message (bytes "email recipient is required") [])
    _ ← map_error (wrapped (bytes "email from: %w") []) (parse_mailbox t.sender)
    validate_recipients (envelope_recipients t.recipients t.cc_recipients t.bcc_recipients)
    validate_headers t.headers
