-- ===== src/Targets/Channels/Accepted.antt =====
-- What it means that Send of notify/send.go returns no error, for email and webhook targets.
use notifykit.Base.{◌≡◌, ◌≢◌, ap, subst, Bool, Option, none, some, List, [], ◌∷◌, All}
use notifykit.Text.{Text}
use notifykit.Notify.Retry.{Runtime, Send, Outcome}
use notifykit.Notify.Retry.Outcomes.{Explains, with_retry-Explains}
use notifykit.Notify.Receivers.{Receiver}
use notifykit.Notify.Delivery.{Payload, Targets, deliver, join}
use notifykit.Notify.Delivery.Report.{
  actual, outcomes, all_outcomes, all_errors, last_world, final_world, receiver_outcomes,
  IsDelivered, all_errors_iff, join_iff,
}
use notifykit.Notify.Send.{Notifications, payload_of, send}
use notifykit.Notify.Send.Laws.{Sends, addressed, send-Sends}
use notifykit.Targets.Email.Mailbox.{Mail}
use notifykit.Targets.Email.Proxy.{Proxies}
use notifykit.Targets.Email.Retries.{Network, send_email, live_report}
use notifykit.Targets.Webhook.Sending.{
  Webhook, Http, Response, respond, received, post, post_response, prepare, client_of, request_of,
  send_prepared, send_result,
}
use notifykit.Targets.Webhook.Sending
use notifykit.Targets.Webhook.Retries.{send_webhook}
use notifykit.Targets.Channels.{Contents, Channel, channels, send_channel, payload_data}
use notifykit.Targets.Channels.Answered.{IsAnswered, answered}
use notifykit.Targets.Channels.Mailed.{IsMailed, mailed}

-- Without an error, the last call of the function had none, in a live context.
last_call :
    {World : Type 0} (rt : Runtime World) {cfg : _} {fn : Send World} {o : Outcome World}
    → Explains rt cfg fn o
    → o.error ≡ none
    → (w : World) × (rt.ctx_err w ≡ none) × (fn w ≡ (o.result, none, o.world))
last_call rt (Explains.delivered w live f n h) e = (w, live, f)
last_call rt (Explains.interrupted x c h) e = cc
last_call rt (Explains.gave_up w x live f still why h) e = cc

module _ {Client World Notification Value Data : Type 0} (mail : Mail) (proxies : Proxies)
    (net : Network World) (http : Http Client World) (rt : Runtime World)
    (contents : Contents Notification Value Data) where
  -- The target accepted the payload, which left the world.
  abbrev pub Accepts :
      Receiver (Channel Client Data) Value
      → Payload Notification Value
      → Channel Client Data
      → World
      → Type 0
  Accepts receiver payload (Channel.email t) w' =
      IsMailed mail proxies net rt t
        (payload_data contents
          (record payload { receiver = receiver.name; custom_data = receiver.custom_data }))
        w'
  Accepts receiver payload (Channel.webhook t) w' =
      IsAnswered http (Sending.apply_defaults http t)
        (payload_data contents
          (record payload { receiver = receiver.name; custom_data = receiver.custom_data }))
        w'

  -- The targets accepted the payload one after the other; the outcomes say which worlds they left.
  abbrev pub AllAccept :
      Receiver (Channel Client Data) Value
      → Payload Notification Value
      → List (Channel Client Data)
      → List (Outcome World)
      → Type 0
  AllAccept receiver payload [] os = Unit
  AllAccept receiver payload (t ∷ ts) [] = ⊥
  AllAccept receiver payload (t ∷ ts) (o ∷ os) =
      Accepts receiver payload t o.world × AllAccept receiver payload ts os

  abbrev pub EachAccepts :
      Payload Notification Value
      → List (Receiver (Channel Client Data) Value)
      → List (List (Outcome World))
      → Type 0
  EachAccepts payload [] oss = Unit
  EachAccepts payload (r ∷ rs) [] = ⊥
  EachAccepts payload (r ∷ rs) (os ∷ oss) =
      AllAccept r payload (actual r.targets) os × EachAccepts payload rs oss

  abbrev ops : Targets (Channel Client Data) Notification Value World
  ops = channels mail proxies net http rt contents

  deliver-Accepts :
      (receiver : Receiver (Channel Client Data) Value) (payload : Payload Notification Value)
      (t : Channel Client Data) (w : World)
      → IsDelivered rt ops (deliver rt ops receiver payload t w)
      → Accepts receiver payload t (deliver rt ops receiver payload t w).world
  unfolding deliver send_channel send_webhook send_result
  deliver-Accepts receiver payload (Channel.email t) w d =
      let values =
        payload_data contents
          (record payload { receiver = receiver.name; custom_data = receiver.custom_data }) in
      let (v, live, f) =
        last_call rt
          (with_retry-Explains rt receiver.retry (send_email mail proxies net rt t values) w) d in
      mailed mail proxies net rt t values v _ _ (live_report mail proxies net rt t values v live) f
  deliver-Accepts receiver payload (Channel.webhook t) w d =
      let values =
        payload_data contents
          (record payload { receiver = receiver.name; custom_data = receiver.custom_data }) in
      let (v, live, f) =
        last_call rt (with_retry-Explains rt receiver.retry (send_webhook http rt t values) w) d in
      subst (IsAnswered http (Sending.apply_defaults http t) values) (ap (λ x. x.2) f)
        (answered http (Sending.apply_defaults http t) values v (ap (λ x. x.1) f))

  outcomes-AllAccept :
      (receiver : Receiver (Channel Client Data) Value) (payload : Payload Notification Value)
      (ts : List (Channel Client Data)) (w : World)
      → All (IsDelivered rt ops) (outcomes rt ops receiver payload ts w)
      → AllAccept receiver payload ts (outcomes rt ops receiver payload ts w)
  unfolding outcomes deliver
  outcomes-AllAccept receiver payload [] w h = tt
  outcomes-AllAccept receiver payload (t ∷ ts) w h = (
    deliver-Accepts receiver payload t w h.0,
    outcomes-AllAccept receiver payload ts (deliver rt ops receiver payload t w).world h.1,
  )

  all_outcomes-EachAccepts :
      (payload : Payload Notification Value) (rs : List (Receiver (Channel Client Data) Value))
      (w : World)
      → All (All (IsDelivered rt ops)) (all_outcomes rt ops payload rs w)
      → EachAccepts payload rs (all_outcomes rt ops payload rs w)
  unfolding all_outcomes
  all_outcomes-EachAccepts payload [] w h = tt
  all_outcomes-EachAccepts payload (r ∷ rs) w h = (
    outcomes-AllAccept r payload (actual r.targets) w h.0,
    all_outcomes-EachAccepts payload rs (last_world w (receiver_outcomes rt ops payload r w)) h.1,
  )

  -- Where Send returns no error for email and webhook targets, there is an addressed receiver, and every
  -- target of every addressed receiver has accepted the notification, whatever the retry configurations:
  -- an email target rendered it and made all the calls of the plan, and a webhook target rendered it,
  -- made its request, and got a response with a status from 200 to 299.
  pub send-EachAccepts :
      (ns : Notifications Notification)
      (receivers : List (Text × Option (Receiver (Channel Client Data) Value))) (w w' : World)
      (nil_ctx : Bool) (n : Option Notification)
      → send rt ops ns nil_ctx n receivers w ≡ some (none, w')
      → (m : Notification) × (n ≡ some m)
        × (addressed rt ops ns receivers w m ≢ [])
        × (w'
            ≡ final_world rt ops w (
                all_outcomes rt ops (payload_of rt ops ns m) (addressed rt ops ns receivers w m) w))
        × EachAccepts
            (payload_of rt ops ns m)
            (addressed rt ops ns receivers w m)
            (all_outcomes rt ops (payload_of rt ops ns m) (addressed rt ops ns receivers w m) w)
  send-EachAccepts ns receivers w w' nil_ctx n h =
      elim (send-Sends rt ops ns receivers w nil_ctx n) [
        | Sends.refused e r x ↦ cc
        | Sends.sent m c same i u a x ↦
            let rs = addressed rt ops ns receivers w m in
            let payload = payload_of rt ops ns m in
            let e : join (all_errors rt ops rs (all_outcomes rt ops payload rs w)) ≡ none = cc in
            let ends : w' ≡ final_world rt ops w (all_outcomes rt ops payload rs w) = cc in
            (
              m,
              same,
              a,
              ends,
              all_outcomes-EachAccepts payload rs w
                  ((all_errors_iff rt ops payload rs w).0 ((join_iff rt ops _).0 e)),
            )
      ]
