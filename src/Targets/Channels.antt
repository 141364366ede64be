-- ===== src/Targets/Channels.antt =====
-- The targets of targets/email and targets/webhook as the targets of the delivery engine: their methods
-- Type and Send, and Payload.Data of notify/types.go.
pub mod Answered
pub mod Mailed
pub mod Accepted
pub mod Queued
use notifykit.Base.{Option, none, some, List}
use notifykit.Text.{Text, bytes}
use notifykit.Notify.Retry.{Runtime, Send}
use notifykit.Notify.Delivery.{Payload, Targets}
use notifykit.Targets.Email.Config.{Email}
use notifykit.Targets.Email.Mailbox.{Mail}
use notifykit.Targets.Email.Proxy.{Proxies}
use notifykit.Targets.Email.Retries.{Network, send_email}
use notifykit.Targets.Webhook.Sending.{Webhook, Http}
use notifykit.Targets.Webhook.Retries.{send_webhook}

-- The method Data of a notification, and a nil value.
pub record Contents (Notification Value Data : Type 0) : Type 0 where
  pub nothing : Data
  pub data_of : Notification → Text → List (Text × Value) → Text → Data

-- Payload.Data
unfoldable pub payload_data :
    {Notification Value Data : Type 0}
    → Contents Notification Value Data
    → Payload Notification Value
    → Text
    → Data
payload_data contents p subject = elim p.notification [
  | none ↦ contents.nothing
  | some n ↦ contents.data_of n p.receiver p.custom_data subject
]

-- A pointer to one of the two structs.
pub data Channel (Client Data : Type 0) : Type 0 where
  email : Email Data → Channel Client Data
  webhook : Webhook Client Data → Channel Client Data

-- The method Type.
abbrev pub channel_type : {Client Data : Type 0} → Channel Client Data → Text
channel_type (Channel.email t) = bytes "email"
channel_type (Channel.webhook t) = bytes "webhook"

module _ {Client World Notification Value Data : Type 0} (mail : Mail) (proxies : Proxies)
    (net : Network World) (http : Http Client World) (rt : Runtime World)
    (contents : Contents Notification Value Data) where
  -- The method Send.
  unfoldable pub send_channel : Channel Client Data → Payload Notification Value → Send World
  send_channel (Channel.email t) payload =
      send_email mail proxies net rt t (payload_data contents payload)
  send_channel (Channel.webhook t) payload = send_webhook http rt t (payload_data contents payload)

  abbrev pub channels : Targets (Channel Client Data) Notification Value World
  channels = record { type_name = channel_type; send = send_channel }
