-- ===== src/Targets/Email/Sending.antt =====
-- targets/email/email.go: Render, Validate, ProxyAddress and SendResult.
pub mod Outcome
use notifykit.Base.{Bool, true, false, not, Option, none, some, List, [], ◌∷◌, if◌then◌else◌}
use notifykit.Text.{Text, bytes}
use notifykit.Text.Strings.{itoa, join_host_port}
use notifykit.Notify.Error.{Error, DeliveryResult, message, wrapped}
use notifykit.Notify.Error.Marks.{permanent}
use notifykit.Notify.Retry.{zero_result}
use notifykit.Notify.Result.{Result, ok, err, ◌>>=◌, ◌>>◌, map_error}
use notifykit.Targets.Email.Config.{Email, apply_defaults}
use notifykit.Targets.Email.Mailbox.{Mail, validate_header_value, validate_smtp_config}
use notifykit.Targets.Email.Proxy.{Proxies, ProxyUrl, resolve_proxy}
use notifykit.Targets.Email.Classify.{classify_smtp_error}
use notifykit.Targets.Email.Wire.{History, Peer}
use notifykit.Targets.Email.Session.{send_smtp}

pub record Rendered : Type 0 where
  pub subject : Text
  pub body : Text

abbrev pub template_or {ℓ} : {A : Type ℓ} → Option A → Text → Result A
template_or none problem = err (message problem [])
template_or (some template) problem = ok template

abbrev pub status_of : Option Error → Text
status_of none = bytes "sent"
status_of (some e) = bytes "failed"

-- The text of the time that has passed is `elapsed`.
abbrev pub report : Text → Option Error × History → DeliveryResult × Option Error × History
report elapsed (result, calls) =
    (record zero_result { status = status_of result; response = elapsed }, result, calls)

module _ {Data : Type 0} where
  -- Render of a target that is not nil; `values` is payload.Data, which takes the subject.
  unfoldable pub render : Email Data → (Text → Data) → Result Rendered
  render t values = do
    template ← template_or t.template (bytes "email template is nil")
    subject_tmpl ← template_or t.subject_tmpl (bytes "email subject template is nil")
    subject ← map_error (wrapped (bytes "render email subject: %w") []) (subject_tmpl (values []))
    validate_header_value (bytes "Subject") subject
    body ← map_error (wrapped (bytes "render email template: %w") []) (template (values subject))
    ok (record { subject = subject; body = body })

  -- ProxyAddress of a target that may be nil.
  unfoldable pub proxy_address : Proxies → Option (Email Data) → Result Text
  proxy_address proxies none = ok []
  proxy_address proxies (some t) = if not t.proxy_from_environment then ok [] else (do
    let target = apply_defaults t
    found ← resolve_proxy proxies (join_host_port target.host (itoa target.port)) target.tls_mode
    host_of found)
    where
      host_of : Option ProxyUrl → Result Text
      host_of none = ok []
      host_of (some proxy) = ok proxy.host

  module _ (mail : Mail) where
    -- Rendering and validation, on a target with its defaults.
    unfoldable pub prepare : Email Data → (Text → Data) → Result Rendered
    prepare t values = do rendered ← render t values; validate_smtp_config mail t; ok rendered

    -- Validate of a target that may be nil.
    unfoldable pub validate : Option (Email Data) → (Text → Data) → Result (Unit {0})
    validate none values = err (message (bytes "email target is nil") [])
    validate (some t) values = do
      _ ← render (apply_defaults t) values
      validate_smtp_config mail (apply_defaults t)

    module _ (proxies : Proxies) (peer : Peer) where
      -- The error that SendResult returns once it has started, and the calls.
      unfoldable pub send_prepared : Email Data → (Text → Data) → Option Error × History
      send_prepared t values = elim (prepare t values) [
        | err e ↦ (permanent (some e), [])
        | ok rendered ↦
            let (result, calls) = send_smtp mail proxies peer t rendered.subject rendered.body in
            (classify_smtp_error result, calls)
      ]

      -- SendResult of a target that may be nil; `nil_ctx` says whether the context is nil, and
      -- `ended` is the error of the context.
      unfoldable pub send_result :
          Bool
          → Option Error
          → Option (Email Data)
          → (Text → Data)
          → Text
          → DeliveryResult × Option Error × History
      send_result nil_ctx ended none values elapsed =
          (zero_result, permanent (some (message (bytes "email target is nil") [])), [])
      send_result true ended (some t) values elapsed =
          (zero_result, permanent (some (message (bytes "context is nil") [])), [])
      send_result false (some e) (some t) values elapsed = (zero_result, some e, [])
      send_result false none (some t) values elapsed =
          report elapsed (send_prepared (apply_defaults t) values)
