-- ===== src/Targets/Webhook/Logging.antt =====
-- targets/webhook/webhook.go: what is logged of a response.
use notifykit.Base.{
  ◌≡◌, refl, ℤ, Bool, true, false, ◌||◌, Option, none, some, List, [], ◌∷◌, ◌++◌, if◌then◌else◌,
}
use notifykit.Text.{Text, bytes, text_eq, text_or}
use notifykit.Notify.Error.{Error}
use notifykit.Targets.Webhook.LogMode.{LogResponse}

pub data FieldValue : Type 0 where
  text_value : Text → FieldValue
  number : ℤ → FieldValue
  flag : Bool → FieldValue
  -- The headers of the response.
  header_values : List (Text × List Text) → FieldValue
  error_value : Error → FieldValue

-- A line of the logger: whether it is an error, the message and the fields.
pub record LogLine : Type 0 where
  pub is_error : Bool
  pub text : Text
  pub fields : List (Text × FieldValue)

-- What is logged of an http.Response and its body.
pub record Logged : Type 0 where
  pub status : Text
  pub status_code : ℤ
  pub headers : List (Text × List Text)
  pub body_text : Text
  pub truncated : Bool
  pub duration : Text

unfoldable pub label : Text → Text
label name = text_or name (bytes "webhook")

abbrev pub logs_body : LogResponse → Bool
logs_body LogResponse.body = true
logs_body LogResponse.full = true
logs_body mode = false

abbrev pub logs_headers : LogResponse → Bool
logs_headers LogResponse.full = true
logs_headers mode = false

unfoldable pub response_log_fields : Text → Logged → LogResponse → List (Text × FieldValue)
unfolding label
response_log_fields name resp mode =
    (bytes "target", FieldValue.text_value (label name))
    ∷ (bytes "status", FieldValue.text_value resp.status)
    ∷ (bytes "statusCode", FieldValue.number resp.status_code)
    ∷ (bytes "duration", FieldValue.text_value resp.duration)
    ∷ (bytes "responseTruncated", FieldValue.flag resp.truncated)
    ∷ ((if logs_body mode
          then (bytes "responseBody", FieldValue.text_value resp.body_text) ∷ []
          else [])
        ++ (if logs_headers mode
            then (bytes "responseHeaders", FieldValue.header_values resp.headers) ∷ []
            else []))

abbrev pub or_summary : LogResponse → LogResponse
or_summary LogResponse.body = LogResponse.body
or_summary LogResponse.full = LogResponse.full
or_summary mode = LogResponse.summary

unfoldable pub log_successful_response : Text → LogResponse → Logged → Option LogLine
log_successful_response name LogResponse.nothing resp = none
log_successful_response name mode resp = some (record {
  is_error = false;
  text = bytes "webhook delivered";
  fields = response_log_fields name resp (or_summary mode);
})

unfoldable pub log_failed_response : Text → LogResponse → Logged → Error → LogLine
log_failed_response name mode resp e = record {
  is_error = true;
  text = bytes "webhook delivery failed";
  fields =
      response_log_fields name resp (or_summary mode)
      ++ ((bytes "error", FieldValue.error_value e) ∷ []);
}

abbrev pub has_field : Text → List (Text × FieldValue) → Bool
has_field key [] = false
has_field key (field ∷ fields) = text_eq key field.0 || has_field key fields

abbrev pub line_has_field : Text → Option LogLine → Bool
line_has_field key none = false
line_has_field key (some line) = has_field key line.fields

-- The body of a response is logged, whether the delivery succeeded or failed, just with the modes
-- LogResponseBody and LogResponseFull, and its headers just with LogResponseFull.
logs-secrets :
    (name : Text) (mode : LogResponse) (resp : Logged) (e : Error)
    → (line_has_field (bytes "responseBody") (log_successful_response name mode resp)
        ≡ logs_body mode)
      × (line_has_field (bytes "responseHeaders") (log_successful_response name mode resp)
          ≡ logs_headers mode)
      × (line_has_field (bytes "responseBody") (some (log_failed_response name mode resp e))
          ≡ logs_body mode)
      × (line_has_field (bytes "responseHeaders") (some (log_failed_response name mode resp e))
          ≡ logs_headers mode)
unfolding log_successful_response log_failed_response response_log_fields
logs-secrets name LogResponse.unset resp e = (refl, refl, refl, refl)
logs-secrets name LogResponse.nothing resp e = (refl, refl, refl, refl)
logs-secrets name LogResponse.summary resp e = (refl, refl, refl, refl)
logs-secrets name LogResponse.body resp e = (refl, refl, refl, refl)
logs-secrets name LogResponse.full resp e = (refl, refl, refl, refl)
logs-secrets name (LogResponse.unknown s) resp e = (refl, refl, refl, refl)
