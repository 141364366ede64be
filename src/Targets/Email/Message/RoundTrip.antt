-- ===== src/Targets/Email/Message/RoundTrip.antt =====
-- targets/email/email.go, buildEmail: what a mail reader gets from the message of a valid target.
use notifykit.Base.{
  ℕ, ◌≡◌, refl, inl, inr, true, false, some, List, [], ◌∷◌, ◌++◌, ◌||◌, ◌==◌, map, All, All-append,
  All-split, arith, is_empty, Bool-cases, Option-cases,
}
use notifykit.Text.{Text, bytes, text_leb, text_eq}
use notifykit.Text.Runes.{trim_space, is_space, chunks, trim_space-visible}
use notifykit.Text.Strings.{join_texts, sort_texts, insert_text}
use notifykit.Header.{contains_newline, valid_field_name, valid_field_name_char, all_valid}
use notifykit.Header.Names.{IsTokenByte, valid_field_name_iff, token-ascii, token-not_space}
use notifykit.Notify.Receivers.{lookup}
use notifykit.Notify.Result.{ok}
use notifykit.Targets.Email.Config.{Email, BodyFormat}
use notifykit.Targets.Email.Mailbox.{
  Mail, Mailbox, parse_mailbox, validate_smtp_config, envelope_recipients,
}
use notifykit.Targets.Email.Mailbox.Valid.{
  IsMailbox, IsCustomHeader, IsDeliverable, validate_smtp_config_iff,
}
use notifykit.Targets.Email.Message.Lines.{
  read_message, IsHeaderLine, read_header-write_lines, contains_newline-append,
}
use notifykit.Targets.Email.Message.{
  constant_headers, header_line, value_of, custom_lines, keys, append_headers, format_mailbox,
  format_mailboxes, encode_subject, standard_lines, cc_lines, header_lines, write_body,
  normalize_body, build_email, body_content_type,
}

-- Header text of the mail packages has no line ends: the string of a parsed address, and an encoded
-- word.
pub record WritesLines (mail : Mail) : Type 0 where
  pub shown :
      (t : Text) (m : Mailbox) → mail.parse_address t ≡ some m → contains_newline m.shown ≡ false
  pub encoded : (t : Text) → contains_newline (mail.q_encode t) ≡ false

visible_byte : (b : ℕ) → is_space b ≡ false → (b == 13 || b == 10) ≡ false
unfolding is_space
visible_byte b h = ground arith

-- A field name begins with a visible ASCII character and has no line ends.
token-contains_newline : (t : Text) → All IsTokenByte t → contains_newline t ≡ false
unfolding contains_newline
token-contains_newline [] h = refl
token-contains_newline (b ∷ bs) (h, hs) =
    rw (visible_byte b (token-not_space b h), token-contains_newline bs hs) refl

header_line-IsHeaderLine :
    (name value : Text)
    → valid_field_name name ≡ true
    → contains_newline value ≡ false
    → IsHeaderLine (header_line name value)
header_line-IsHeaderLine [] value h k = absurd (((valid_field_name_iff []).0 h).0 refl)
header_line-IsHeaderLine (b ∷ bs) value h k =
    let (t, ts) = ((valid_field_name_iff (b ∷ bs)).0 h).1 in
    (
      contains_newline-append (b ∷ bs) _ (token-contains_newline (b ∷ bs) (t, ts))
          (contains_newline-append (bytes ": ") value (unfold contains_newline in refl) k),
      trim_space-visible b _ (token-ascii b t) (token-not_space b t),
    )

insert_text-All :
    (P : Text → Type 0) (t : Text) (ts : List Text) → P t → All P ts → All P (insert_text t ts)
unfolding insert_text
insert_text-All P t [] p ps = (p, tt)
insert_text-All P t (u ∷ us) p (q, qs) = elim (Bool-cases (text_leb t u)) [
  | inl h ↦ rw h (p, (q, qs))
  | inr h ↦ rw h (q, insert_text-All P t us p qs)
]

sort_texts-All : (P : Text → Type 0) (ts : List Text) → All P ts → All P (sort_texts ts)
unfolding sort_texts
sort_texts-All P [] ps = tt
sort_texts-All P (t ∷ ts) (p, ps) = insert_text-All P t (sort_texts ts) p (sort_texts-All P ts ps)

value_of-IsLine :
    (name : Text) (headers : List (Text × Text))
    → All IsCustomHeader headers
    → contains_newline (value_of name headers) ≡ false
unfolding lookup
value_of-IsLine name [] h = unfold contains_newline in refl
value_of-IsLine name ((n, v) ∷ headers) (h, hs) = elim (Bool-cases (text_eq n name)) [
  | inl same ↦ rw (value_of, same) h.2
  | inr other ↦ rw (value_of, other) (value_of-IsLine name headers hs)
]

custom_lines-All :
    (names : List Text) (headers : List (Text × Text))
    → All (λ n. valid_field_name n ≡ true) names
    → All IsCustomHeader headers
    → All IsHeaderLine (custom_lines names headers)
custom_lines-All [] headers h k = tt
custom_lines-All (n ∷ names) headers (h, hs) k = (
  header_line-IsHeaderLine n _ h (value_of-IsLine n headers k),
  custom_lines-All names headers hs k,
)

keys-All :
    (headers : List (Text × Text))
    → All IsCustomHeader headers
    → All (λ n. valid_field_name n ≡ true) (keys headers)
keys-All [] h = tt
keys-All ((n, v) ∷ headers) (h, hs) = (h.0, keys-All headers hs)

-- The standard names are field names.
standard_names :
    (valid_field_name (bytes "From") ≡ true)
    × (valid_field_name (bytes "To") ≡ true)
    × (valid_field_name (bytes "Subject") ≡ true)
    × (valid_field_name (bytes "MIME-Version") ≡ true)
    × (valid_field_name (bytes "Content-Type") ≡ true)
    × (valid_field_name (bytes "Content-Transfer-Encoding") ≡ true)
    × (valid_field_name (bytes "Cc") ≡ true)
unfolding valid_field_name trim_space chunks valid_field_name_char is_space all_valid
standard_names = (refl, refl, refl, refl, refl, refl, refl)

join_texts-IsLine :
    (ts : List Text) (sep : Text)
    → All (λ t. contains_newline t ≡ false) ts
    → contains_newline sep ≡ false
    → contains_newline (join_texts ts sep) ≡ false
unfolding join_texts
join_texts-IsLine [] sep h k = unfold contains_newline in refl
join_texts-IsLine (t ∷ []) sep (h, hs) k = h
join_texts-IsLine (t ∷ u ∷ us) sep (h, hs) k =
    contains_newline-append t _ h
      (contains_newline-append sep _ k (join_texts-IsLine (u ∷ us) sep hs k))

module _ (mail : Mail) (writes : WritesLines mail) where
  parsed-IsLine :
      (value : Text) (m : Mailbox)
      → parse_mailbox mail value ≡ ok m
      → contains_newline m.shown ≡ false
  unfolding parse_mailbox
  parsed-IsLine value m h = elim (Option-cases (mail.parse_address (trim_space value))) [
    | inl e ↦ ground (arith, e)
    | inr (p, e) ↦ ground (arith, e, writes.shown (trim_space value) p e)
  ]

  format_mailbox-IsLine :
      (value : Text) → IsMailbox mail value → contains_newline (format_mailbox mail value) ≡ false
  unfolding format_mailbox
  format_mailbox-IsLine value (m, h) = rw (h, format_mailbox) (parsed-IsLine value m h)

  format_mailboxes-IsLine :
      (values : List Text)
      → All (IsMailbox mail) values
      → contains_newline (format_mailboxes mail values) ≡ false
  unfolding format_mailboxes
  format_mailboxes-IsLine values h =
      join_texts-IsLine (map (format_mailbox mail) values) (bytes ", ") (each values h)
        (unfold contains_newline in refl)
    where
      each :
          (vs : List Text)
          → All (IsMailbox mail) vs
          → All (λ t. contains_newline t ≡ false) (map (format_mailbox mail) vs)
      each [] h = tt
      each (v ∷ vs) (h, hs) = (format_mailbox-IsLine v h, each vs hs)

  encode_subject-IsLine :
      (subject : Text)
      → contains_newline subject ≡ false
      → contains_newline (encode_subject mail subject) ≡ false
  unfolding encode_subject
  encode_subject-IsLine subject h = ground (arith, writes.encoded subject)

  module _ {Data : Type 0} (t : Email Data) (d : IsDeliverable mail t) where
    written : All (IsMailbox mail) t.recipients × All (IsMailbox mail) t.cc_recipients
    unfolding envelope_recipients
    written =
        let (to, others) = All-split (IsMailbox mail) t.recipients _ d.recipients in
        (to, (All-split (IsMailbox mail) t.cc_recipients t.bcc_recipients others).0)

    content_type-IsLine :
        (format : BodyFormat)
        → contains_newline (body_content_type format ++ bytes "; charset=utf-8") ≡ false
    unfolding contains_newline body_content_type
    content_type-IsLine BodyFormat.unset = refl
    content_type-IsLine BodyFormat.html = refl
    content_type-IsLine BodyFormat.plain = refl
    content_type-IsLine (BodyFormat.unknown s) = refl

    constant_lines : All IsHeaderLine (constant_headers t.body_format)
    constant_lines = (
      header_line-IsHeaderLine (bytes "MIME-Version") _ standard_names.3
          (unfold contains_newline in refl),
      (
        header_line-IsHeaderLine (bytes "Content-Type") _ standard_names.4
            (content_type-IsLine t.body_format),
        (
          header_line-IsHeaderLine (bytes "Content-Transfer-Encoding") _ standard_names.5
              (unfold contains_newline in refl),
          tt,
        ),
      ),
    )

    standard_lines-All :
        (subject : Text)
        → contains_newline subject ≡ false
        → All IsHeaderLine (standard_lines mail t subject)
    unfolding standard_lines
    standard_lines-All subject h = (
      header_line-IsHeaderLine (bytes "From") _ standard_names.0
          (format_mailbox-IsLine t.sender d.sender.1),
      (
        header_line-IsHeaderLine (bytes "To") _ standard_names.1
            (format_mailboxes-IsLine t.recipients written.0),
        (
          header_line-IsHeaderLine (bytes "Subject") _ standard_names.2
              (encode_subject-IsLine subject h),
          constant_lines,
        ),
      ),
    )

    cc_lines-All : All IsHeaderLine (cc_lines mail t)
    unfolding cc_lines
    cc_lines-All = elim (Bool-cases (is_empty t.cc_recipients)) [
      | inl alone ↦ rw alone tt
      | inr copied ↦ rw copied (
        header_line-IsHeaderLine (bytes "Cc") _ standard_names.6
            (format_mailboxes-IsLine t.cc_recipients written.1),
        tt,
      )
    ]

    header_lines-All :
        (subject : Text)
        → contains_newline subject ≡ false
        → All IsHeaderLine (header_lines mail t subject)
    unfolding header_lines append_headers
    header_lines-All subject h =
        All-append IsHeaderLine (standard_lines mail t subject ++ cc_lines mail t) _
          (All-append IsHeaderLine (standard_lines mail t subject) _ (standard_lines-All subject h)
            cc_lines-All)
          (custom_lines-All (sort_texts (keys t.headers)) t.headers
            (sort_texts-All _ (keys t.headers) (keys-All t.headers d.headers)) d.headers)

  -- A mail reader that takes apart the message of a target with a valid configuration, for a subject
  -- of one line, gets just the header lines that buildEmail means to write, and the normalized body
  -- with a line end after it: no value breaks out of its line.
  pub read_message-build_email :
      {Data : Type 0} (t : Email Data) (subject body : Text)
      → validate_smtp_config mail t ≡ ok tt
      → contains_newline subject ≡ false
      → read_message (build_email mail t subject body)
        ≡ some (header_lines mail t subject, write_body (normalize_body body))
  unfolding read_message build_email
  read_message-build_email t subject body v h =
      read_header-write_lines (header_lines mail t subject) [] _
        (header_lines-All t ((validate_smtp_config_iff mail t).0 v) subject h)
