-- ===== src/Notify/Calls.antt =====
-- notify/manager.go: what Enqueue and Start refuse before they take the lock, Wait, and Receivers.
use notifykit.Base.{Bool, Option, none, some, List, []}
use notifykit.Text.{Text, bytes}
use notifykit.Notify.Error.{Error, message}
use notifykit.Notify.Result.{Result, ok, err, ◌>>=◌, ◌>>◌, check, refuse_if}
use notifykit.Notify.Receivers.{
  Receiver, normalize_receivers, sort_by_id, values, validate_notification_id,
}
use notifykit.Notify.Send.{Notifications}

-- The tests on the manager and the context with which the methods begin.
unfoldable pub refuse_nil : Bool → Bool → Result (Unit {0})
refuse_nil nil_manager nil_ctx = do
  refuse_if nil_manager (message (bytes "manager is nil") [])
  refuse_if nil_ctx (message (bytes "context is nil") [])

unfoldable pub some_notification :
    {Notification : Type 0} → Option Notification → Result Notification
some_notification none = err (message (bytes "notification is nil") [])
some_notification (some n) = ok n

module _ {Notification : Type 0} (ns : Notifications Notification) where
  -- Enqueue up to the new ID: the notification, or the error with which it is refused.
  unfoldable pub enqueue_checks :
      Bool → Bool → Option Error → Option Notification → Result Notification
  enqueue_checks nil_manager nil_ctx ended n = do
    refuse_nil nil_manager nil_ctx
    check ended
    notification ← some_notification n
    check (validate_notification_id (ns.id notification))
    ok notification

-- Start up to the lock.
unfoldable pub start_checks : Bool → Bool → Option Error → Result (Unit {0})
start_checks nil_manager nil_ctx ended = do refuse_nil nil_manager nil_ctx; check ended

-- What the select of Wait may take: the closing of done, or the end of the context.
pub data WaitEvent : Type 0 where
  finished : WaitEvent
  context_ended : Error → WaitEvent

abbrev pub event_error : WaitEvent → Option Error
event_error finished = none
event_error (context_ended e) = some e

unfoldable pub wait : Bool → Bool → WaitEvent → Result (Unit {0})
wait nil_manager nil_ctx event = do refuse_nil nil_manager nil_ctx; check (event_error event)

module _ {Target Value : Type 0} where
  -- Receivers of a manager that may be nil, by its map.
  unfoldable pub manager_receivers :
      Option (List (Text × Option (Receiver Target Value))) → List (Receiver Target Value)
  manager_receivers none = []
  manager_receivers (some receivers) = sort_by_id (values (normalize_receivers receivers))
