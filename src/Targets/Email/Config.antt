-- ===== src/Targets/Email/Config.antt =====
-- targets/email/email.go: Target, its options and its defaults.
pub mod Defaults
pub mod Sharing
use notifykit.Base.{
  ℤ, pos, ◌*ℤ◌, Bool, true, false, ◌&&◌, Option, none, some, List, [], ◌∷◌, leb_ℤ, is_empty,
  if◌then◌else◌,
}
use notifykit.Text.{Text}
use notifykit.Text.Maps.{copy_into}
use notifykit.Notify.Result.{Result}

-- The string types TLSMode and BodyFormat, by their constants; `unset` is the empty string.
pub data TlsMode : Type 0 where
  unset : TlsMode
  required : TlsMode
  implicit : TlsMode
  plaintext : TlsMode
  unknown : Text → TlsMode

pub data BodyFormat : Type 0 where
  unset : BodyFormat
  html : BodyFormat
  plain : BodyFormat
  unknown : Text → BodyFormat

-- A template is what its Render gives for data.
pub record Email (Data : Type 0) : Type 0 where
  pub tls_mode : TlsMode
  pub body_format : BodyFormat
  pub name : Text
  pub host : Text
  pub port : ℤ
  pub user : Text
  pub pass : Text
  pub sender : Text
  pub recipients : List Text
  pub cc_recipients : List Text
  pub bcc_recipients : List Text
  pub headers : List (Text × Text)
  pub skip_tls_verify : Bool
  pub dial_timeout : ℤ
  pub timeout : ℤ
  pub proxy_from_environment : Bool
  pub template : Option (Data → Result Text)
  pub subject_tmpl : Option (Data → Result Text)

abbrev pub second : ℤ
second = pos 1000000000

abbrev or_required : TlsMode → TlsMode
or_required TlsMode.unset = required
or_required mode = mode

abbrev or_html : BodyFormat → BodyFormat
or_html BodyFormat.unset = html
or_html format = format

abbrev is_implicit : TlsMode → Bool
is_implicit implicit = true
is_implicit mode = false

abbrev or_port : TlsMode → ℤ → ℤ
or_port mode port =
    if leb_ℤ (pos 0) port && leb_ℤ port (pos 0)
    then (if is_implicit mode then pos 465 else pos 587)
    else port

abbrev or_positive : ℤ → ℤ → ℤ
or_positive default value = if leb_ℤ value (pos 0) then default else value

-- An option is a function that sets fields.
abbrev pub Setting : Type 0 → Type 0
Setting Data = Email Data → Email Data

module _ {Data : Type 0} where
  unfoldable pub apply_defaults : Setting Data
  apply_defaults t =
      let mode = or_required t.tls_mode in
      record t {
        tls_mode = mode;
        body_format = or_html t.body_format;
        port = or_port mode t.port;
        timeout = or_positive (pos 30 *ℤ second) t.timeout;
        dial_timeout = or_positive (pos 10 *ℤ second) t.dial_timeout;
      }

  -- The loop over the options, in which a nil option is passed over.
  unfoldable pub apply_settings : List (Option (Setting Data)) → Setting Data
  apply_settings [] t = t
  apply_settings (none ∷ opts) t = apply_settings opts t
  apply_settings (some opt ∷ opts) t = apply_settings opts (opt t)

  abbrev pub zero_target : Email Data
  zero_target = record {
    tls_mode = TlsMode.unset;
    body_format = BodyFormat.unset;
    name = [];
    host = [];
    port = pos 0;
    user = [];
    pass = [];
    sender = [];
    recipients = [];
    cc_recipients = [];
    bcc_recipients = [];
    headers = [];
    skip_tls_verify = false;
    dial_timeout = pos 0;
    timeout = pos 0;
    proxy_from_environment = false;
    template = none;
    subject_tmpl = none;
  }

  unfoldable pub new : List (Option (Setting Data)) → Email Data
  unfolding apply_defaults apply_settings
  new opts = apply_defaults (apply_settings opts zero_target)

  -- The copies of its maps and slices are equal to them.
  unfoldable pub new_from_target : Email Data → List (Option (Setting Data)) → Email Data
  unfolding apply_defaults apply_settings
  new_from_target t opts = apply_defaults (apply_settings opts t)

  unfoldable pub with_tls_mode : TlsMode → Setting Data
  with_tls_mode mode t = record t { tls_mode = mode }

  unfoldable pub with_body_format : BodyFormat → Setting Data
  with_body_format format t = record t { body_format = format }

  unfoldable pub with_name : Text → Setting Data
  with_name name t = record t { name = name }

  unfoldable pub with_host : Text → Setting Data
  with_host host t = record t { host = host }

  unfoldable pub with_port : ℤ → Setting Data
  with_port port t = record t { port = port }

  unfoldable pub with_credentials : Text → Text → Setting Data
  with_credentials user pass t = record t { user = user; pass = pass }

  unfoldable pub with_from : Text → Setting Data
  with_from sender t = record t { sender = sender }

  unfoldable pub with_to : List Text → Setting Data
  with_to recipients t = record t { recipients = recipients }

  unfoldable pub with_cc : List Text → Setting Data
  with_cc recipients t = record t { cc_recipients = recipients }

  unfoldable pub with_bcc : List Text → Setting Data
  with_bcc recipients t = record t { bcc_recipients = recipients }

  unfoldable pub with_headers : List (Text × Text) → Setting Data
  unfolding copy_into
  with_headers headers t = record t { headers = copy_into t.headers headers }

  unfoldable pub with_header : Text → Text → Setting Data
  unfolding with_headers
  with_header name value = with_headers ((name, value) ∷ [])

  unfoldable pub with_skip_tls_verify : Setting Data
  with_skip_tls_verify t = record t { skip_tls_verify = true }

  unfoldable pub with_dial_timeout : ℤ → Setting Data
  with_dial_timeout timeout t = record t { dial_timeout = timeout }

  unfoldable pub with_timeout : ℤ → Setting Data
  with_timeout timeout t = record t { timeout = timeout }

  unfoldable pub with_proxy_from_environment : Setting Data
  with_proxy_from_environment t = record t { proxy_from_environment = true }

  unfoldable pub with_template : Option (Data → Result Text) → Setting Data
  with_template template t = record t { template = template }

  unfoldable pub with_subject_template : Option (Data → Result Text) → Setting Data
  with_subject_template template t = record t { subject_tmpl = template }
