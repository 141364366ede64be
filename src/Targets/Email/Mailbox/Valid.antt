-- ===== src/Targets/Email/Mailbox/Valid.antt =====
-- targets/email/email.go: what validateSMTPConfig accepts.
use notifykit.Base.{
  ◌≡◌, refl, ◌↔◌, ◌⊎◌, inl, inr, pos, ◌≤ℤ◌, Bool, true, false, not, ◌&&◌, ◌||◌, List, [], ◌∷◌, All,
  arith, is_empty, ◌≢◌, leb_ℤ, ltb_ℤ, is_empty_iff,
}
use notifykit.Text.{Text}
use notifykit.Text.Runes.{trim_space}
use notifykit.Header.{valid_field_name, contains_newline}
use notifykit.Notify.Result.{
  ok, Result-cases, refuse_if-ok, refuse_if-passes, map_error-ok, unit-ok,
}
use notifykit.Targets.Email.Config.{Email}
use notifykit.Targets.Email.Mailbox.{
  Mail, Mailbox, parse_mailbox, envelope_recipients, is_reserved_header, is_plaintext,
  is_known_mode, is_known_format, validate_header_name, validate_header_value, validate_headers,
  validate_recipients, validate_smtp_config,
}

-- A header that a target may add: its name is a field name of its own, and its value is one line.
abbrev pub IsCustomHeader : Text × Text → Type 0
IsCustomHeader (name, value) =
    (valid_field_name name ≡ true)
    × (is_reserved_header name ≡ false)
    × (contains_newline value ≡ false)

validate_header_name_iff :
    (name : Text) → (validate_header_name name ≡ ok tt) ↔ (valid_field_name name ≡ true)
unfolding validate_header_name valid_field_name
validate_header_name_iff name = ground arith

validate_headers_iff :
    (headers : List (Text × Text)) → (validate_headers headers ≡ ok tt) ↔ All IsCustomHeader headers
unfolding validate_headers validate_header_value
validate_headers_iff [] = (λ h. tt, λ h. refl)
validate_headers_iff ((name, value) ∷ headers) =
    ground (arith, validate_header_name_iff name, validate_headers_iff headers)

module _ (mail : Mail) where
  -- An address that parseMailbox accepts.
  abbrev pub IsMailbox : Text → Type 0
  IsMailbox value = (m : Mailbox) × (parse_mailbox mail value ≡ ok m)

  validate_recipients_iff :
      (rs : List Text) → (validate_recipients mail rs ≡ ok tt) ↔ All IsMailbox rs
  unfolding validate_recipients
  validate_recipients_iff [] = (λ h. tt, λ h. refl)
  validate_recipients_iff (r ∷ rs) = elim (Result-cases (parse_mailbox mail r)) [
    | inl (e, h) ↦ rw h ((λ q. cc), λ p. cc (p.0.1))
    | inr (m, h) ↦
        (let rest = validate_recipients_iff rs in
          rw h ((λ q. ((m, refl), rest.0 q)), λ p. rest.1 p.1))
  ]

  -- A configuration that can be delivered with.
  pub record IsDeliverable {Data : Type 0} (t : Email Data) : Type 0 where
    pub mode : is_known_mode t.tls_mode ≡ true
    pub format : is_known_format t.body_format ≡ true
    pub credentials : (is_plaintext t.tls_mode ≡ false) ⊎ ((t.user ≡ []) × (t.pass ≡ []))
    pub host : trim_space t.host ≢ []
    pub port : (pos 1 ≤ℤ t.port) × (t.port ≤ℤ pos 65535)
    pub sender : (trim_space t.sender ≢ []) × IsMailbox t.sender
    pub some_recipient : envelope_recipients t.recipients t.cc_recipients t.bcc_recipients ≢ []
    pub recipients :
        All IsMailbox (envelope_recipients t.recipients t.cc_recipients t.bcc_recipients)
    pub headers : All IsCustomHeader t.headers

  no_credentials :
      (b : Bool) (user pass : Text)
      → (b && (not (is_empty user) || not (is_empty pass))) ≡ false
      → (b ≡ false) ⊎ ((user ≡ []) × (pass ≡ []))
  no_credentials b user pass h = ground arith

  some_credentials :
      (b : Bool) (user pass : Text)
      → (b ≡ false) ⊎ ((user ≡ []) × (pass ≡ []))
      → (b && (not (is_empty user) || not (is_empty pass))) ≡ false
  some_credentials b user pass h = ground arith

  module _ {Data : Type 0} (t : Email Data) where
    validate-IsDeliverable : validate_smtp_config mail t ≡ ok tt → IsDeliverable t
    unfolding validate_smtp_config
    validate-IsDeliverable h =
        let everyone = envelope_recipients t.recipients t.cc_recipients t.bcc_recipients in
        let (mode, h₁) = refuse_if-ok (not (is_known_mode t.tls_mode)) _ _ h in
        let (format, h₂) = refuse_if-ok (not (is_known_format t.body_format)) _ _ h₁ in
        let (credentials, h₃) =
          refuse_if-ok (is_plaintext t.tls_mode && (not (is_empty t.user) || not (is_empty t.pass)))
            _ _ h₂ in
        let (host, h₄) = refuse_if-ok (is_empty (trim_space t.host)) _ _ h₃ in
        let (low, h₅) = refuse_if-ok (leb_ℤ t.port (pos 0)) _ _ h₄ in
        let (high, h₆) = refuse_if-ok (ltb_ℤ (pos 65535) t.port) _ _ h₅ in
        let (sender, h₇) = refuse_if-ok (is_empty (trim_space t.sender)) _ _ h₆ in
        let (some_recipient, h₈) = refuse_if-ok (is_empty everyone) _ _ h₇ in
        let (mailbox, h₉) = map_error-ok _ (parse_mailbox mail t.sender) _ h₈ in
        let (recipients, headers) = unit-ok (validate_recipients mail everyone) _ h₉ in
        record {
          mode = ground (arith, mode);
          format = ground (arith, format);
          credentials = no_credentials _ t.user t.pass credentials;
          host = (is_empty_iff _).0 host;
          port = ground (arith, low, high);
          sender = ((is_empty_iff _).0 sender, mailbox);
          some_recipient = (is_empty_iff _).0 some_recipient;
          recipients = (validate_recipients_iff _).0 recipients;
          headers = (validate_headers_iff _).0 headers;
        }

    IsDeliverable-validate : IsDeliverable t → validate_smtp_config mail t ≡ ok tt
    unfolding validate_smtp_config
    IsDeliverable-validate d =
        let everyone = envelope_recipients t.recipients t.cc_recipients t.bcc_recipients in
        let (m, e) = d.sender.1 in
        refuse_if-passes (not (is_known_mode t.tls_mode)) _ _ (ground (arith, d.mode)) (
          refuse_if-passes (not (is_known_format t.body_format)) _ _ (ground (arith, d.format)) (
            refuse_if-passes
              (is_plaintext t.tls_mode && (not (is_empty t.user) || not (is_empty t.pass))) _ _
              (some_credentials _ t.user t.pass d.credentials)
              (refuse_if-passes (is_empty (trim_space t.host)) _ _ ((is_empty_iff _).1 d.host) (
                refuse_if-passes (leb_ℤ t.port (pos 0)) _ _ (ground (arith, d.port)) (
                  refuse_if-passes (ltb_ℤ (pos 65535) t.port) _ _ (ground (arith, d.port)) (
                    refuse_if-passes (is_empty (trim_space t.sender)) _ _
                      ((is_empty_iff _).1 d.sender.0)
                      (refuse_if-passes (is_empty everyone) _ _
                        ((is_empty_iff _).1 d.some_recipient)
                        (rw (e, (validate_recipients_iff everyone).1 d.recipients)
                          ((validate_headers_iff t.headers).1 d.headers)))))))))

    -- validateSMTPConfig accepts a target just when its TLS mode and body format are known, it has
    -- no credentials without TLS, a host, a port from 1 to 65535, a sender and at least one recipient
    -- that are all mailboxes, and only headers with a field name of their own and a value of one line.
    pub validate_smtp_config_iff : (validate_smtp_config mail t ≡ ok tt) ↔ IsDeliverable t
    validate_smtp_config_iff = (validate-IsDeliverable, IsDeliverable-validate)
