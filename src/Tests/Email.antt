-- ===== src/Tests/Email.antt =====
-- The email target at a concrete configuration and with concrete servers.
use notifykit.Tests.Common.{live_runtime, retrying}
use notifykit.Base.{ℕ, suc}
use notifykit.Notify.Retry.{with_retry}
use notifykit.Targets.Email.Retries.{Network, send_email, EmailEnds, with_retry-EmailEnds}
use notifykit.Base.{
  arith, ◌≡◌, refl, ◌↔◌, ◌⊎◌, pos, Bool, true, false, none, some, [], ◌∷◌, ◌++◌, if◌then◌else◌,
}
use notifykit.Text.{Text, bytes}
use notifykit.Text.Runes.{trim_space}
use notifykit.Text.Strings.{join_host_port, itoa, join_texts}
use notifykit.Header.{contains_newline, valid_field_name, all_valid}
use notifykit.Notify.Error.{Error, foreign, operation_error}
use notifykit.Notify.Error.Marks.{is_permanent}
use notifykit.Notify.Result.{ok}
use notifykit.Targets.Email.Config.{Email, TlsMode, BodyFormat, apply_defaults}
use notifykit.Targets.Email.Mailbox.{
  Mail, Mailbox, parse_mailbox, envelope_recipients, validate_recipients, validate_headers,
  validate_header_name, validate_header_value, is_reserved_header, validate_smtp_config,
}
use notifykit.Targets.Email.Mailbox.Valid.{IsDeliverable, validate_smtp_config_iff}
use notifykit.Targets.Email.Proxy.{Proxies}
use notifykit.Targets.Email.Classify.{classify_smtp_error}
use notifykit.Targets.Email.Classify.Marks.{IsTransient, IsMarked, classify_smtp_error-IsMarked}
use notifykit.Targets.Email.Message.{build_email, crlf, header_lines, write_body, normalize_body}
use notifykit.Targets.Email.Message.Body.{lines_from, normalize_body-lines}
use notifykit.Targets.Email.Message.Lines.{read_message}
use notifykit.Targets.Email.Message.RoundTrip.{WritesLines, read_message-build_email}
use notifykit.Targets.Email.Wire.{
  Command, dial, set_deadline, tls_handshake, greeting, hello, auth, close_conn, History, Peer,
  perform, check_context,
}
use notifykit.Targets.Email.Wire.Runs.{Conducts}
use notifykit.Targets.Email.Session.{
  send_smtp, deliver_message, dial_smtp_connection, converse, secure_connection, upgrade_connection,
  smtp_auth,
}
use notifykit.Targets.Email.Session.Plan.{delivery_plan}
use notifykit.Targets.Email.Session.Delivery.{outcome_of, send_smtp-Conducts}
use notifykit.Targets.Email.Session.Credentials.{IsSecured, send_smtp-IsSecured}
use notifykit.Targets.Email.Sending.{send_result}
use notifykit.Targets.Email.Sending.Outcome.{IsEnding, send_result-IsEnding}

-- Every line is a mailbox, and an encoded word is always the same.
abbrev pub lines_are_mailboxes : Mail
lines_are_mailboxes = record {
  parse_address =
      λ t. if contains_newline t then none else some (record { address = t; shown = t });
  q_encode = λ t. bytes "=?utf-8?q??=";
}

abbrev pub no_proxies : Proxies
no_proxies = record { from_environment = λ scheme host. ok none; base64 = λ t. t }

abbrev is_login : Command → Bool
is_login (auth user pass host) = true
is_login c = false

abbrev rejected : Error
rejected = foreign (record {
  label = bytes "535";
  timeout = none;
  reply_code = some (pos 535);
  is_certificate = false;
  is_eof = false;
  is_url = false;
})

-- A server that accepts everything, and one that rejects the credentials.
abbrev pub accepting : Peer
accepting = record {
  reply = λ h c. none;
  response = λ h. (pos 200, bytes "200 OK");
  has_start_tls = λ h. true;
  ctx_err = λ h. none;
}

abbrev rejecting : Peer
rejecting = record {
  reply = λ h c. if is_login c then some rejected else none;
  response = λ h. (pos 200, bytes "200 OK");
  has_start_tls = λ h. true;
  ctx_err = λ h. none;
}

abbrev pub target : Email Text
target = record {
  tls_mode = TlsMode.implicit;
  body_format = BodyFormat.unset;
  name = [];
  host = bytes "mx";
  port = pos 0;
  user = bytes "u";
  pass = bytes "p";
  sender = bytes "me@a";
  recipients = bytes "you@b" ∷ [];
  cc_recipients = [];
  bcc_recipients = bytes "she@c" ∷ [];
  headers = (bytes "X-Id", bytes "7") ∷ [];
  skip_tls_verify = false;
  dial_timeout = pos 0;
  timeout = pos 0;
  proxy_from_environment = false;
  template = some (λ d. ok d);
  subject_tmpl = some (λ d. ok (bytes "Hi"));
}

shown_line :
    (t : Text) (m : Mailbox)
    → lines_are_mailboxes.parse_address t ≡ some m
    → contains_newline m.shown ≡ false
shown_line t m h = ground arith

writes_lines : WritesLines lines_are_mailboxes
unfolding contains_newline
writes_lines = record { shown = shown_line; encoded = λ t. refl }

target_valid : validate_smtp_config lines_are_mailboxes (apply_defaults target) ≡ ok tt
unfolding validate_smtp_config apply_defaults trim_space envelope_recipients parse_mailbox
    contains_newline validate_recipients validate_headers validate_header_name valid_field_name
    all_valid is_reserved_header validate_header_value
target_valid = refl

send_result-IsEnding_example :
    IsEnding lines_are_mailboxes no_proxies accepting target
      (λ s. s)
      (bytes "1ms")
      (send_result lines_are_mailboxes no_proxies accepting false none
        (some target)
        (λ s. s)
        (bytes "1ms"))
send_result-IsEnding_example =
    send_result-IsEnding lines_are_mailboxes no_proxies accepting target (λ s. s) (bytes "1ms")

send_smtp-Conducts_example :
    Conducts accepting []
      (delivery_plan lines_are_mailboxes no_proxies
        (apply_defaults target)
        (bytes "Hi")
        (bytes "there"))
      (outcome_of lines_are_mailboxes no_proxies accepting
        (send_smtp lines_are_mailboxes no_proxies accepting target (bytes "Hi") (bytes "there")))
send_smtp-Conducts_example =
    send_smtp-Conducts lines_are_mailboxes no_proxies accepting target (bytes "Hi") (bytes "there")

abbrev before_login : History
before_login =
    dial (bytes "mx:465") (pos 10000000000)
    ∷ set_deadline
    ∷ tls_handshake (bytes "mx") false
    ∷ greeting (bytes "mx")
    ∷ hello (bytes "localhost")
    ∷ []

rejected_login :
    (send_smtp lines_are_mailboxes no_proxies rejecting target (bytes "Hi") (bytes "there")).1
    ≡ before_login ++ (auth (bytes "u") (bytes "p") (bytes "mx") ∷ close_conn ∷ [])
unfolding send_smtp apply_defaults deliver_message dial_smtp_connection perform converse
    secure_connection check_context upgrade_connection smtp_auth join_host_port itoa
rejected_login = refl

send_smtp-IsSecured_example : IsSecured (bytes "mx") false rejecting before_login
send_smtp-IsSecured_example =
    send_smtp-IsSecured lines_are_mailboxes no_proxies rejecting target (bytes "Hi") (bytes "there")
      target_valid before_login (close_conn ∷ []) (bytes "u") (bytes "p") (bytes "mx")
      rejected_login

read_message-build_email_example :
    read_message
      (build_email lines_are_mailboxes (apply_defaults target) (bytes "Hi") (bytes "a\nb"))
    ≡ some (
      header_lines lines_are_mailboxes (apply_defaults target) (bytes "Hi"),
      write_body (normalize_body (bytes "a\nb")),
    )
read_message-build_email_example =
    read_message-build_email lines_are_mailboxes writes_lines (apply_defaults target) (bytes "Hi")
      (bytes "a\nb") target_valid (unfold contains_newline in refl)

validate_smtp_config_iff_example :
    (validate_smtp_config lines_are_mailboxes (apply_defaults target) ≡ ok tt)
    ↔ IsDeliverable lines_are_mailboxes (apply_defaults target)
validate_smtp_config_iff_example =
    validate_smtp_config_iff lines_are_mailboxes (apply_defaults target)

classify_smtp_error-IsMarked_example :
    ((is_permanent (some (operation_error (bytes "authentication") (pos 30) rejected)) ≡ true)
      × (classify_smtp_error (some (operation_error (bytes "authentication") (pos 30) rejected))
          ≡ some (operation_error (bytes "authentication") (pos 30) rejected)))
    ⊎ ((is_permanent (some (operation_error (bytes "authentication") (pos 30) rejected)) ≡ false)
        × IsMarked (IsTransient (operation_error (bytes "authentication") (pos 30) rejected)) (
            classify_smtp_error
              (some (operation_error (bytes "authentication") (pos 30) rejected))))
classify_smtp_error-IsMarked_example =
    classify_smtp_error-IsMarked (operation_error (bytes "authentication") (pos 30) rejected)

normalize_body-lines_example :
    normalize_body (bytes "a\r\nb\rc\n") ≡ join_texts (lines_from false (bytes "a\r\nb\rc\n")) crlf
normalize_body-lines_example = normalize_body-lines (bytes "a\r\nb\rc\n")

-- The servers are the same in every world, and a world is the number of calls so far.
abbrev rejecting_network : Network ℕ
rejecting_network = record {
  peer = λ w. rejecting;
  elapsed = λ w. bytes "1ms";
  after = λ w calls. suc w;
}

with_retry-EmailEnds_example :
    EmailEnds lines_are_mailboxes no_proxies rejecting_network live_runtime target
      (λ s. s)
      retrying
      (with_retry live_runtime retrying
        (send_email lines_are_mailboxes no_proxies rejecting_network live_runtime target (λ s. s))
        0)
with_retry-EmailEnds_example =
    with_retry-EmailEnds lines_are_mailboxes no_proxies rejecting_network live_runtime target
      (λ s. s) retrying refl 0
