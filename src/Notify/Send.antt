-- ===== src/Notify/Send.antt =====
-- notify/send.go, Send, and notify/receiver.go, SendTo; types.go: Notification, ReceiverRouter.
-- A panic is the result `none`. The context enters as the world of `Runtime`, and as the flag that
-- it is nil. The logger is left out.
pub mod Laws
use notifykit.Base.{Bool, true, false, Option, none, some, List, [], ◌∷◌}
use notifykit.Text.{Text, bytes}
use notifykit.Notify.Error.{Error, message}
use notifykit.Notify.Retry.{Runtime}
use notifykit.Notify.Receivers.{
  Receiver, normalize_receivers, validate_receivers, resolve_receivers, validate_notification_id,
}
use notifykit.Notify.Receivers.Build.{new_receivers}
use notifykit.Notify.Receivers.Normal.{pointers}
use notifykit.Notify.Delivery.{Payload, Targets, dispatch}

-- The methods of a Notification: its ID, and ReceiverIDs where it is a ReceiverRouter.
pub record Notifications (Notification : Type 0) : Type 0 where
  pub id : Notification → Text
  pub router : Notification → Option (List Text)

-- nil receiver IDs are the empty list.
unfoldable pub receiver_ids : Option (List Text) → List Text
receiver_ids none = []
receiver_ids (some ids) = ids

module _ {Target Notification Value World : Type 0} (rt : Runtime World)
    (ops : Targets Target Notification Value World) (ns : Notifications Notification) where
  abbrev pub payload_of : Notification → Payload Notification Value
  payload_of n = record { notification = some n; receiver = []; custom_data = [] }

  -- From the resolved receivers on.
  unfoldable pub send_resolved :
      Notification → List (Receiver Target Value) → World → Option (Option Error × World)
  send_resolved n [] w = some (some (message (bytes "no receivers resolved") []), w)
  send_resolved n (r ∷ rs) w = dispatch rt ops (payload_of n) (r ∷ rs) w

  -- From the normalized receivers on.
  unfoldable pub send_normalized :
      Notification → List (Text × Receiver Target Value) → World → Option (Option Error × World)
  send_normalized n receivers w = elim (validate_receivers receivers) [
    | some e ↦ some (some e, w)
    | none ↦ send_resolved n (resolve_receivers receivers (receiver_ids (ns.router n))) w
  ]

  unfoldable pub send :
      Bool
      → Option Notification
      → List (Text × Option (Receiver Target Value))
      → World
      → Option (Option Error × World)
  send true n receivers w = some (some (message (bytes "context is nil") []), w)
  send false none receivers w = some (some (message (bytes "notification is nil") []), w)
  send false (some n) receivers w = elim (validate_notification_id (ns.id n)) [
    | some e ↦ some (some e, w)
    | none ↦ send_normalized n (normalize_receivers receivers) w
  ]

  -- SendTo: Send to a map of the receivers.
  unfoldable pub send_to :
      Bool
      → Option Notification
      → List (Option (Receiver Target Value))
      → World
      → Option (Option Error × World)
  send_to nil_ctx n receivers w = send nil_ctx n (pointers (new_receivers receivers)) w
