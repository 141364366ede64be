-- ===== src/Tests/Channels.antt =====
-- Send and the queue with an email target and a webhook target.
use notifykit.Base.{ℕ, suc, ◌≡◌, ◌≢◌, refl, pos, ◌∙◌, sym, false, Option, none, some, List, [], ◌∷◌}
use notifykit.Text.{Text, bytes}
use notifykit.Text.Runes.{trim_space}
use notifykit.Text.Strings.{join_host_port, itoa}
use notifykit.Header.{contains_newline, valid_field_name, all_valid}
use notifykit.Notify.Result.{ok}
use notifykit.Notify.Retry.{with_retry, max_attempts}
use notifykit.Notify.Receivers.{
  Receiver, normalize_receivers, validate_receivers, resolve_receivers, validate_notification_id,
}
use notifykit.Notify.Delivery.{
  Targets, join, deliver, failure, dispatch, dispatch_receiver, dispatch_receivers,
  dispatch_targets,
}
use notifykit.Notify.Send.{
  Notifications, payload_of, receiver_ids, send, send_normalized, send_resolved,
}
use notifykit.Targets.Email.Retries.{Network, send_email}
use notifykit.Targets.Webhook.Sending.{Http, Response}
use notifykit.Targets.Webhook.Retries.{send_webhook}
use notifykit.Targets.Channels.{Contents, Channel, channels, payload_data, send_channel}
use notifykit.Notify.Send.Laws.{addressed}
use notifykit.Notify.Delivery.Report.{all_outcomes, final_world}
use notifykit.Targets.Channels.Accepted.{EachAccepts, send-EachAccepts}
use mathlib.Core.List.{Memᴰ}
use notifykit.Notify.Store.{count, get, put, delete}
use notifykit.Notify.Manager.{send_slot}
use notifykit.Notify.Manager
use notifykit.Notify.Manager.Steps.{System, Step, Reach}
use notifykit.Notify.Manager.Content.{admitted}
use notifykit.Notify.Dispatcher.{
  ManagerConfig, built, configured, apply_options, with_workers, build_manager,
  dispatch_queued-send,
}
use notifykit.Notify.Dispatcher.Completions.{AllDeliver}
use notifykit.Targets.Channels.Queued.{IsAccepted, completed-IsAccepted}
use notifykit.Tests.Common.{live_runtime, retrying}
use notifykit.Tests.Webhook.{server, hook}
use notifykit.Tests.Email.{lines_are_mailboxes, no_proxies, accepting, target}
use notifykit.Targets.Webhook.Sending as Posting
use notifykit.Targets.Email.Sending as Mailing
use notifykit.Targets.Email.Config as Mail
use notifykit.Targets.Webhook.Body.{read_limited, finish_read, read_response_body}
use notifykit.Targets.Email.Mailbox.{
  envelope_recipients, parse_mailbox, validate_recipients, is_reserved_header, validate_smtp_config,
}
use notifykit.Targets.Email.Mailbox as Boxes
use notifykit.Targets.Email.Session.{
  send_smtp, dial_smtp_connection, smtp_auth, send_recipients, write_message, smtp_send,
  secure_connection, upgrade_connection, converse, deliver_message,
}
use notifykit.Targets.Email.Wire.{perform, check_context, attempt}
use notifykit.Targets.Email.Classify.{classify_smtp_error}

-- A server that answers 204.
abbrev no_content : Http (Unit {0}) ℕ
no_content = record server {
  do_request = λ c q w. (
    ok (record {
      status = bytes "204";
      status_code = pos 204;
      retry_after = [];
      body = record { content = []; fault = none };
    }),
    suc w,
  );
}

abbrev accepting_network : Network ℕ
accepting_network = record {
  peer = λ w. accepting;
  elapsed = λ w. bytes "1ms";
  after = λ w calls. suc w;
}

abbrev contents : Contents Text ℕ Text
contents = record { nothing = []; data_of = λ n name custom subject. n }

abbrev both_channels : Targets (Channel (Unit {0}) Text) Text ℕ ℕ
both_channels =
    channels lines_are_mailboxes no_proxies accepting_network no_content live_runtime contents

abbrev named : Notifications Text
named = record { id = λ n. n; router = λ n. none }

abbrev team : Receiver (Channel (Unit {0}) Text) ℕ
team = record {
  id = bytes "ops";
  name = [];
  retry = retrying;
  targets = some (Channel.email target) ∷ some (Channel.webhook hook) ∷ [];
  custom_data = [];
}

abbrev channel_teams : List (Text × Option (Receiver (Channel (Unit {0}) Text) ℕ))
channel_teams = (bytes "ops", some team) ∷ []

-- Both targets accept the notification.
both_accept :
    send live_runtime both_channels named false (some (bytes "up")) channel_teams 0 ≡ some (none, 2)
unfolding send send_normalized send_resolved dispatch dispatch_receivers dispatch_receiver
    dispatch_targets deliver failure join with_retry max_attempts send_channel send_email
    send_webhook payload_data validate_notification_id normalize_receivers validate_receivers
    resolve_receivers receiver_ids Posting.send_result Posting.send_prepared Posting.apply_defaults
    Posting.prepare Posting.render Posting.validate_headers Posting.validate_header_name
    Posting.validate_header_value Posting.validate_endpoint Posting.validate_request_url
    Posting.post Posting.received Posting.post_response Posting.respond read_response_body
    finish_read read_limited Mailing.send_result Mailing.send_prepared Mail.apply_defaults
    Mailing.prepare Mailing.render Boxes.validate_headers Boxes.validate_header_name
    Boxes.validate_header_value trim_space contains_newline valid_field_name all_valid
    envelope_recipients parse_mailbox validate_recipients is_reserved_header validate_smtp_config
    send_smtp dial_smtp_connection smtp_auth send_recipients write_message smtp_send
    secure_connection upgrade_connection converse deliver_message perform check_context attempt
    classify_smtp_error join_host_port itoa
both_accept = refl

send-EachAccepts_example :
    (m : Text) × (some (bytes "up") ≡ some m)
    × (addressed live_runtime both_channels named channel_teams 0 m ≢ [])
    × (2
        ≡ final_world live_runtime both_channels 0 (
            all_outcomes live_runtime both_channels
              (payload_of live_runtime both_channels named m)
              (addressed live_runtime both_channels named channel_teams 0 m)
              0))
    × EachAccepts lines_are_mailboxes no_proxies accepting_network no_content live_runtime contents
        (payload_of live_runtime both_channels named m)
        (addressed live_runtime both_channels named channel_teams 0 m)
        (all_outcomes live_runtime both_channels
          (payload_of live_runtime both_channels named m)
          (addressed live_runtime both_channels named channel_teams 0 m)
          0)
send-EachAccepts_example =
    send-EachAccepts lines_are_mailboxes no_proxies accepting_network no_content live_runtime
      contents named channel_teams 0 2 false (some (bytes "up")) both_accept

abbrev manager_options : List (Option (ManagerConfig → ManagerConfig))
manager_options = some (with_workers (pos 2)) ∷ []

channel_manager :
    build_manager manager_options channel_teams
    ≡ built (record { workers = pos 2; capacity = pos 128 }) (normalize_receivers channel_teams)
unfolding configured apply_options build_manager with_workers validate_receivers normalize_receivers
channel_manager = refl

up_named : validate_notification_id (bytes "up") ≡ none
unfolding validate_notification_id
up_named = refl

-- The notification is queued, and one of the workers delivers it.
reported : (s : System Text) × Reach 128 2 s
unfolding send_slot count Manager.admit put Manager.start Manager.begin_dispatch get delete
reported = (
  _,
  Reach.next
      (Reach.next
        (Reach.next
          (Reach.next
            (Reach.next (Reach.next Reach.here (Step.reserve 7 (bytes "up") _ refl refl))
              (Step.admit [] [] 7 (bytes "up") none _ _ refl refl))
            (Step.start _ refl))
          (Step.receive 1 7 [] refl refl))
        (Step.begin [] [] 7 _ _ refl refl))
      (Step.complete [] [] 7 (bytes "up") none refl),
)

reported_deliver :
    AllDeliver live_runtime both_channels named channel_teams 128 2
      (normalize_receivers channel_teams)
      reported.1
unfolding reported
reported_deliver =
    let same =
      dispatch_queued-send live_runtime both_channels named manager_options channel_teams
        (record { workers = pos 2; capacity = pos 128 }) (normalize_receivers channel_teams)
        (bytes "up") 0 channel_manager up_named in
    ((0, 2, sym same.2 ∙ both_accept), (tt, (tt, (tt, (tt, (tt, tt))))))

completed-IsAccepted_example :
    (n : Text) × Memᴰ (7, n) (admitted 128 2 reported.1)
    × IsAccepted lines_are_mailboxes no_proxies accepting_network no_content live_runtime contents
        named channel_teams n
unfolding reported
completed-IsAccepted_example =
    completed-IsAccepted lines_are_mailboxes no_proxies accepting_network no_content live_runtime
      contents named channel_teams 128 2 (normalize_receivers channel_teams) manager_options
      (record { workers = pos 2; capacity = pos 128 }) channel_manager reported.1 reported_deliver
      (up_named, tt) 7 (Memᴰ.head refl)
