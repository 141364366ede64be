-- ===== src/Targets/Webhook/Sending.antt =====
-- targets/webhook/webhook.go: applyDefaults, Render, the header and endpoint checks, post and
-- SendResult. Log lines are left out: see Logging for those about a response.
use notifykit.Base.{
  ℤ, pos, Bool, true, false, not, ◌&&◌, ◌||◌, Option, none, some, List, [], ◌∷◌, ltb_ℤ, leb_ℤ,
  is_empty, if◌then◌else◌,
}
use notifykit.Text.{Text, bytes, text_eq, text_or}
use notifykit.Text.Runes.{trim_space}
use notifykit.Header.{valid_field_name, contains_newline}
use notifykit.Notify.Error.{Error, DeliveryResult, message, wrapped, redacted_error}
use notifykit.Notify.Error.Marks.{permanent, transport}
use notifykit.Notify.Result.{Result, ok, err}
use notifykit.Notify.Retry.{zero_result}
use notifykit.Targets.Webhook.Body.{Body, read_response_body, truncate_body}
use notifykit.Targets.Webhook.LogMode.{LogResponse, or_summary_mode}
use notifykit.Targets.Webhook.RetryAfter.{parse_retry_after}
use notifykit.Targets.Webhook.Errors.{safe_webhook_error, response_error}

-- The fields of Target but Logger. A template is what its Render gives for data.
pub record Webhook (Client Data : Type 0) : Type 0 where
  pub name : Text
  pub url : Text
  pub method : Text
  pub headers : List (Text × Text)
  pub template : Option (Data → Result Text)
  pub title_tmpl : Option (Data → Result Text)
  pub client : Option Client
  pub validate_json : Bool
  pub log_response : LogResponse
  pub response_body_limit : ℤ

pub record Request : Type 0 where
  pub method : Text
  pub url : Text
  -- The calls of Header.Set, in order.
  pub headers : List (Text × Text)
  pub body : Text

pub record Response : Type 0 where
  pub status : Text
  pub status_code : ℤ
  -- Header.Get("Retry-After")
  pub retry_after : Text
  pub body : Body

-- What the code uses of net/http, encoding/json and the clock.
pub record Http (Client World : Type 0) : Type 0 where
  -- NewClient(10 * time.Second)
  pub default_client : Client
  -- http.NewRequest: the scheme and the host of the parsed URL, the scheme in lower case.
  pub new_request : Text → Text → Result (Text × Text)
  -- Client.Do
  pub do_request : Client → Request → World → Result Response × World
  -- http.ParseTime and Sub(now)
  pub until : World → Text → Option ℤ
  pub valid_json : Text → Bool

unfoldable pub validate_header_name : Text → Option Error
validate_header_name name =
    if is_empty name
    then some (message (bytes "webhook header name must not be empty") [])
    else if not (text_eq (trim_space name) name)
    then some (
        message (bytes "webhook header %q must not have leading or trailing whitespace")
          (name ∷ []))
    else if valid_field_name name
    then none
    else some (message (bytes "webhook header %q contains invalid character") (name ∷ []))

unfoldable pub validate_header_value : Text → Text → Option Error
validate_header_value name value =
    if contains_newline value
    then some
        (message (bytes "webhook header %q value must not contain newline characters") (name ∷ []))
    else none

unfoldable pub validate_headers : List (Text × Text) → Option Error
validate_headers [] = none
validate_headers ((name, value) ∷ headers) =
    let rest = validate_headers headers in
    elim (validate_header_name name) [
      | some e ↦ some e
      | none ↦ elim (validate_header_value name value) [ some e ↦ some e | none ↦ rest ]
    ]

-- validateRequestURL of the scheme and the host.
unfoldable pub validate_request_url : Text → Text → Option Error
validate_request_url scheme host =
    if not (text_eq scheme (bytes "http") || text_eq scheme (bytes "https"))
    then some (message (bytes "webhook URL must use http or https") [])
    else if is_empty host
    then some (message (bytes "webhook URL host is required") [])
    else none

module _ {Client World : Type 0} (http : Http Client World) where
  unfoldable pub validate_endpoint : Text → Text → Option Error
  validate_endpoint method url = elim (http.new_request method url) [
    | err e ↦ some (safe_webhook_error e)
    | ok (scheme, host) ↦ validate_request_url scheme host
  ]

  abbrev pub client_of : Option Client → Client
  client_of none = http.default_client
  client_of (some c) = c

abbrev pub result_of : Response → ℤ → Text → DeliveryResult
result_of resp retry_after text = record {
  status = resp.status;
  status_code = resp.status_code;
  response = text;
  retry_after = retry_after;
}

-- From the return of readResponseBody on.
unfoldable pub respond :
    {World : Type 0}
    → Text
    → Response
    → ℤ
    → Text
    → Option Error
    → World
    → DeliveryResult × Option Error × World
respond name resp retry_after text (some e) w = (
  result_of resp retry_after [],
  transport (some (redacted_error e (bytes "webhook response read failed"))),
  w,
)
respond name resp retry_after text none w =
    if ltb_ℤ resp.status_code (pos 200) || leb_ℤ (pos 300) resp.status_code
    then (
      result_of resp retry_after text,
      some (response_error (text_or name (bytes "webhook")) resp.status),
      w,
    )
    else (result_of resp retry_after text, none, w)

-- The response text of the result, cut to the limit.
abbrev pub limited :
    {World : Type 0}
    → ℤ
    → DeliveryResult × Option Error × World
    → DeliveryResult × Option Error × World
limited limit (r, e, w) = (record r { response = truncate_body r.response limit }, e, w)

abbrev pub reject : {World : Type 0} → Error → World → DeliveryResult × Option Error × World
reject e w = (zero_result, permanent (some e), w)

module _ {Client World Data : Type 0} (http : Http Client World) where
  unfoldable pub apply_defaults : Webhook Client Data → Webhook Client Data
  apply_defaults t = record t {
    method = text_or t.method (bytes "POST");
    client = some (client_of http t.client);
    log_response = or_summary_mode t.log_response;
    response_body_limit =
        if leb_ℤ (pos 0) t.response_body_limit && leb_ℤ t.response_body_limit (pos 0)
        then pos 4096
        else t.response_body_limit;
  }

  -- Render; `values` is payload.Data, which takes the title.
  unfoldable pub render : Webhook Client Data → (Text → Data) → Result Text
  render t values = elim t.template [
    | none ↦ err (message (bytes "webhook template is nil") [])
    | some template ↦ elim t.title_tmpl [
      | none ↦ err (message (bytes "webhook title template is nil") [])
      | some title_tmpl ↦ elim (title_tmpl (values [])) [
        | err e ↦ err (wrapped (bytes "render webhook title: %w") [] e)
        | ok title ↦ elim (template (values title)) [
          | err e ↦ err (wrapped (bytes "render webhook template: %w") [] e)
          | ok body ↦
              if t.validate_json && not (http.valid_json (trim_space body))
              then err (message (bytes "render webhook template: result is not valid JSON") [])
              else ok (trim_space body)
        ]
      ]
    ]
  ]

  -- From the response of Client.Do on.
  unfoldable pub post_response :
      Webhook Client Data → Response → World → DeliveryResult × Option Error × World
  post_response t resp w =
      let read = read_response_body resp.body t.response_body_limit in
      respond t.name resp (parse_retry_after (http.until w) resp.retry_after) read.0 read.2 w

  abbrev pub request_of : Webhook Client Data → Text → Request
  request_of t body = record {
    method = t.method;
    url = t.url;
    headers = (bytes "Content-Type", bytes "application/json; charset=utf-8") ∷ t.headers;
    body = body;
  }

  -- From the return of Client.Do on.
  unfoldable pub received :
      Webhook Client Data → Result Response × World → DeliveryResult × Option Error × World
  received t (err e, w) = (zero_result, transport (some (safe_webhook_error e)), w)
  received t (ok resp, w) = post_response t resp w

  -- post; a nil client does not come here.
  unfoldable pub post :
      Webhook Client Data → Client → Text → World → DeliveryResult × Option Error × World
  post t client body w = elim (http.new_request t.method t.url) [
    | err e ↦ (zero_result, permanent (some (safe_webhook_error e)), w)
    | ok parsed ↦ received t (http.do_request client (request_of t body) w)
  ]

  -- The checks that Validate and SendResult share, on a target with its defaults: the body to send.
  unfoldable pub prepare : Webhook Client Data → (Text → Data) → Result Text
  prepare t values = elim (render t values) [
    | err e ↦ err e
    | ok body ↦ elim (validate_headers t.headers) [
      | some e ↦ err e
      | none ↦ elim (validate_endpoint http t.method t.url) [ some e ↦ err e | none ↦ ok body ]
    ]
  ]

  unfoldable pub send_prepared :
      Webhook Client Data → (Text → Data) → World → DeliveryResult × Option Error × World
  send_prepared t values w = elim (prepare t values) [
    | err e ↦ reject (safe_webhook_error e) w
    | ok body ↦ limited t.response_body_limit (post t (client_of http t.client) body w)
  ]

  -- SendResult of a target that may be nil; `nil_ctx` says whether the context is nil.
  unfoldable pub send_result :
      Bool
      → Option (Webhook Client Data)
      → (Text → Data)
      → World
      → DeliveryResult × Option Error × World
  send_result nil_ctx none values w = reject (message (bytes "webhook target is nil") []) w
  send_result true (some t) values w = reject (message (bytes "context is nil") []) w
  send_result false (some t) values w = send_prepared (apply_defaults t) values w
