-- ===== src/Targets/Webhook/Config.antt =====
-- targets/webhook/webhook.go: the options of Target, New, NewFromTarget, Validate, and the options of
-- NewClient. The field Logger is left out.
use notifykit.Base.{
  ℤ, pos, ◌*ℤ◌, Bool, true, false, Option, none, some, List, [], ◌∷◌, leb_ℤ, if◌then◌else◌,
}
use notifykit.Text.{Text, bytes}
use notifykit.Text.Maps.{copy_into}
use notifykit.Notify.Error.{Error, message}
use notifykit.Notify.Result.{Result, error_of}
use notifykit.Targets.Webhook.LogMode.{LogResponse}
use notifykit.Targets.Webhook.Sending.{Webhook, Http, apply_defaults, prepare}

abbrev pub second : ℤ
second = pos 1000000000

-- The options of a client, and the client that they configure.
pub record ClientOptions : Type 0 where
  pub proxy_from_environment : Bool
  pub skip_tls_verify : Bool

pub record ClientConfig : Type 0 where
  pub timeout : ℤ
  pub uses_proxy : Bool
  pub insecure_skip_verify : Bool

abbrev pub ClientOption : Type 0
ClientOption = ClientOptions → ClientOptions

unfoldable pub with_proxy_from_environment : ClientOption
with_proxy_from_environment cfg = record cfg { proxy_from_environment = true }

unfoldable pub with_skip_tls_verify : ClientOption
with_skip_tls_verify cfg = record cfg { skip_tls_verify = true }

unfoldable pub apply_client_options : List (Option ClientOption) → ClientOption
apply_client_options [] cfg = cfg
apply_client_options (none ∷ opts) cfg = apply_client_options opts cfg
apply_client_options (some opt ∷ opts) cfg = apply_client_options opts (opt cfg)

unfoldable pub new_client : ℤ → List (Option ClientOption) → ClientConfig
unfolding apply_client_options
new_client timeout opts =
    let cfg =
      apply_client_options opts
        (record { proxy_from_environment = false; skip_tls_verify = false }) in
    record {
      timeout = if leb_ℤ timeout (pos 0) then pos 10 *ℤ second else timeout;
      uses_proxy = cfg.proxy_from_environment;
      insecure_skip_verify = cfg.skip_tls_verify;
    }

-- An option is a function that sets fields.
abbrev pub Setting : Type 0 → Type 0 → Type 0
Setting Client Data = Webhook Client Data → Webhook Client Data

module _ {Client Data : Type 0} where
  unfoldable pub with_name : Text → Setting Client Data
  with_name name t = record t { name = name }

  unfoldable pub with_url : Text → Setting Client Data
  with_url url t = record t { url = url }

  unfoldable pub with_method : Text → Setting Client Data
  with_method method t = record t { method = method }

  unfoldable pub with_headers : List (Text × Text) → Setting Client Data
  unfolding copy_into
  with_headers headers t = record t { headers = copy_into t.headers headers }

  unfoldable pub with_header : Text → Text → Setting Client Data
  unfolding with_headers
  with_header name value = with_headers ((name, value) ∷ [])

  unfoldable pub with_template : Option (Data → Result Text) → Setting Client Data
  with_template template t = record t { template = template }

  unfoldable pub with_title_template : Option (Data → Result Text) → Setting Client Data
  with_title_template template t = record t { title_tmpl = template }

  unfoldable pub with_client : Option Client → Setting Client Data
  with_client client t = record t { client = client }

  unfoldable pub with_validate_json : Setting Client Data
  with_validate_json t = record t { validate_json = true }

  unfoldable pub with_log_response : LogResponse → Setting Client Data
  with_log_response mode t = record t { log_response = mode }

  unfoldable pub with_response_body_limit : ℤ → Setting Client Data
  with_response_body_limit limit t = record t { response_body_limit = limit }

  -- The loop over the options, in which a nil option is passed over.
  unfoldable pub apply_settings : List (Option (Setting Client Data)) → Setting Client Data
  apply_settings [] t = t
  apply_settings (none ∷ opts) t = apply_settings opts t
  apply_settings (some opt ∷ opts) t = apply_settings opts (opt t)

  abbrev pub zero_target : Webhook Client Data
  zero_target = record {
    name = [];
    url = [];
    method = [];
    headers = [];
    template = none;
    title_tmpl = none;
    client = none;
    validate_json = false;
    log_response = LogResponse.unset;
    response_body_limit = pos 0;
  }

  module _ {World : Type 0} (http : Http Client World) where
    unfoldable pub new : List (Option (Setting Client Data)) → Webhook Client Data
    unfolding apply_settings
    new opts = apply_defaults http (apply_settings opts zero_target)

    -- The copy of its map is equal to it.
    unfoldable pub new_from_target :
        Webhook Client Data → List (Option (Setting Client Data)) → Webhook Client Data
    unfolding apply_settings
    new_from_target t opts = apply_defaults http (apply_settings opts t)

    -- Validate of a target that may be nil.
    unfoldable pub validate : Option (Webhook Client Data) → (Text → Data) → Option Error
    validate none values = some (message (bytes "webhook target is nil") [])
    validate (some t) values = error_of (prepare http (apply_defaults http t) values)
