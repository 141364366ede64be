-- ===== src/Tests/Webhook.antt =====
-- The header names and the webhook target at concrete inputs.
use notifykit.Base.{List}
use notifykit.Notify.Receivers.{lookup}
use notifykit.Targets.Webhook.Config.{with_headers}
use notifykit.Targets.Webhook.Headers.{lookup-with_headers}
use notifykit.Tests.Common.{live_runtime, retrying, plain_formats}
use notifykit.Notify.Result.{err}
use notifykit.Targets.Webhook.Secrets.{HasUrlErrors, Tells, send_result-Tells}
use notifykit.Notify.Error.{message, or_else}
use notifykit.Notify.Error.Marks.{permanent}
use notifykit.Notify.Policy.{default_retry_policy}
use notifykit.Notify.Policy.Laws.{IsBuiltin}
use notifykit.Notify.Retry.{with_retry}
use notifykit.Targets.Webhook.Config.{validate}
use notifykit.Targets.Webhook.Sending.{prepare, render, apply_defaults}
use notifykit.Targets.Webhook.Retries.{
  send_webhook, WebhookEnds, with_retry-WebhookEnds, with_retry-rejected,
}
use notifykit.Base.{
  ℕ, ◌≡◌, refl, ◌≢◌, ◌↔◌, ℤ, pos, min, ◌*◌, true, false, Option, none, some, [], ◌∷◌, All, arith,
  inl, max_int64,
}
use notifykit.Text.{Text, bytes}
use notifykit.Text.Runes.{trim_space, chunks, is_space}
use notifykit.Header.{valid_field_name, valid_field_name_char, all_valid}
use notifykit.Header.Names.{IsTokenByte, valid_field_name_iff}
use notifykit.Notify.Error.{Error, foreign, find_as}
use notifykit.Targets.Webhook.Body.{Body, read_response_body, read_response_body_ok}
use notifykit.Targets.Webhook.RetryAfter.{
  parse_retry_after, parse_int64, parse_retry_after_range, InRange, second,
}
use notifykit.Targets.Webhook.Errors.{safe_webhook_error}
use notifykit.Notify.Result.{ok}
use notifykit.Targets.Webhook.LogMode.{LogResponse}
use notifykit.Targets.Webhook.Sending.{Webhook, Http, send_result}
use notifykit.Targets.Webhook.Outcome.{Sent, send_result-Sent}

name_ok : valid_field_name (bytes "X-Trace_Id") ≡ true
unfolding valid_field_name trim_space chunks valid_field_name_char is_space all_valid
name_ok = refl

name_bad : valid_field_name (bytes "X Trace") ≡ false
unfolding valid_field_name trim_space chunks valid_field_name_char is_space all_valid
name_bad = refl

valid_field_name_iff_example :
    (valid_field_name (bytes "X-Id") ≡ true)
    ↔ ((bytes "X-Id" ≢ []) × All IsTokenByte (bytes "X-Id"))
valid_field_name_iff_example = valid_field_name_iff (bytes "X-Id")

abbrev page : Body
page = record { content = bytes "gateway down "; fault = none }

read_response_body_ok_example :
    read_response_body page (pos 7) ≡ (trim_space (bytes "gateway"), true, none)
read_response_body_ok_example =
    read_response_body_ok page (pos 7) 7 refl (omega arith) (omega arith) (inl refl)

abbrev no_date : Text → Option ℤ
no_date t = some (pos 5)

two_minutes : parse_int64 (bytes "120") ≡ some (pos 120)
unfolding parse_int64
two_minutes = refl

parse_retry_after_range_example :
    InRange (parse_retry_after no_date (bytes " 120"))
    × ((n : ℕ)
        → parse_int64 (trim_space (bytes " 120")) ≡ some (pos n)
        → parse_retry_after no_date (bytes " 120") ≡ pos (min (n * second) max_int64))
parse_retry_after_range_example =
    parse_retry_after_range no_date (bytes " 120") (λ t d h. ground arith)

abbrev unreachable : Error
unreachable = foreign (record {
  label = bytes "Post https://host/secret";
  timeout = some true;
  reply_code = none;
  is_certificate = false;
  is_eof = false;
  is_url = true;
})

-- A server that answers 503 and counts the requests.
abbrev pub server : Http (Unit {0}) ℕ
server = record {
  default_client = tt;
  new_request = λ m u. ok (bytes "https", bytes "host");
  do_request = λ c q w. (
    ok (record {
      status = bytes "503 Service Unavailable";
      status_code = pos 503;
      retry_after = bytes "120";
      body = page;
    }),
    1,
  );
  until = λ w t. none;
  valid_json = λ t. true;
}

abbrev pub hook : Webhook (Unit {0}) Text
hook = record {
  name = [];
  url = bytes "https://host/secret";
  method = [];
  headers = (bytes "X-Id", bytes "7") ∷ [];
  template = some (λ d. ok d);
  title_tmpl = some (λ d. ok (bytes "title"));
  client = none;
  validate_json = true;
  log_response = LogResponse.body;
  response_body_limit = pos 0;
}

send_result-Sent_example : Sent server 0 (send_result server false (some hook) (λ title. title) 0)
send_result-Sent_example = send_result-Sent server false (some hook) (λ title. title) 0

with_retry-WebhookEnds_example :
    WebhookEnds server live_runtime hook
      (λ title. title)
      retrying
      (with_retry live_runtime retrying (send_webhook server live_runtime hook (λ title. title)) 0)
with_retry-WebhookEnds_example =
    with_retry-WebhookEnds server live_runtime hook (λ title. title) retrying refl 0

-- A target without a template.
abbrev no_template : Webhook (Unit {0}) Text
no_template = record hook { template = none }

no_template_rejected :
    validate server (some no_template) (λ title. title)
    ≡ some (message (bytes "webhook template is nil") [])
unfolding validate prepare render apply_defaults
no_template_rejected = refl

with_retry-rejected_example :
    let o =
      with_retry live_runtime retrying
        (send_webhook server live_runtime no_template (λ title. title))
        0 in
    (o.attempts ≡ 1)
    × (o.error
        ≡ permanent (some (safe_webhook_error (message (bytes "webhook template is nil") []))))
    × (o.world ≡ 0)
with_retry-rejected_example =
    with_retry-rejected server live_runtime no_template (λ title. title) retrying
      default_retry_policy 0 (message (bytes "webhook template is nil") []) refl
      IsBuiltin.by_default no_template_rejected refl

-- A network on which no request gets through.
abbrev offline : Http (Unit {0}) ℕ
offline = record server { do_request = λ c q w. (err unreachable, 1) }

offline_urls : HasUrlErrors offline
unfolding find_as
offline_urls c q w e w' h = ground arith

send_result-Tells_example :
    Tells plain_formats offline hook
      (λ title. title)
      0
      (send_result offline false (some hook) (λ title. title) 0)
send_result-Tells_example =
    send_result-Tells plain_formats offline hook (λ title. title) offline_urls 0

abbrev trace_headers : List (Text × Text)
trace_headers = (bytes "X-Id", bytes "9") ∷ (bytes "X-Trace", bytes "8") ∷ []

lookup-with_headers_example :
    (record (with_headers trace_headers hook) { headers = hook.headers } ≡ hook)
    × ((key : Text)
        → lookup key (with_headers trace_headers hook).headers
          ≡ or_else (lookup key trace_headers) (lookup key hook.headers))
lookup-with_headers_example = lookup-with_headers hook trace_headers ((refl, tt), (tt, tt))
