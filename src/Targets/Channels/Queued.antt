-- ===== src/Targets/Channels/Queued.antt =====
-- The queue of notify/manager.go with email and webhook targets: what a completion without an error
-- means.
use mathlib.Core.List.{Memᴰ}
use notifykit.Base.{
  All-at, ℕ, ◌≡◌, ◌≢◌, sym, inl, inr, subst, false, Option, none, some, List, [], All,
}
use notifykit.Text.{Text}
use notifykit.Notify.Retry.{Runtime}
use notifykit.Notify.Receivers.{Receiver, validate_notification_id}
use notifykit.Notify.Delivery.Report.{all_outcomes}
use notifykit.Notify.Send.{Notifications, payload_of}
use notifykit.Notify.Send.Laws.{addressed}
use notifykit.Notify.Manager.Steps.{System, Reach}
use notifykit.Notify.Manager.Content.{admitted}
use notifykit.Notify.Dispatcher.{ManagerConfig, built, build_manager}
use notifykit.Notify.Dispatcher.Completions.{AllDeliver, IsSettled, completed_so_far-IsSettled}
use notifykit.Targets.Email.Mailbox.{Mail}
use notifykit.Targets.Email.Proxy.{Proxies}
use notifykit.Targets.Email.Retries.{Network}
use notifykit.Targets.Webhook.Sending.{Http}
use notifykit.Targets.Channels.{Contents, Channel, channels}
use notifykit.Targets.Channels.Accepted.{EachAccepts, send-EachAccepts}

module _ {Client World Notification Value Data : Type 0} (mail : Mail) (proxies : Proxies)
    (net : Network World) (http : Http Client World) (rt : Runtime World)
    (contents : Contents Notification Value Data) (ns : Notifications Notification)
    (receivers : List (Text × Option (Receiver (Channel Client Data) Value))) where
  -- The notification was accepted, in some world, by every target of every addressed receiver, and
  -- there is one.
  abbrev pub IsAccepted : Notification → Type 0
  IsAccepted n =
      let ops = channels mail proxies net http rt contents in
      (w : World) × (addressed rt ops ns receivers w n ≢ [])
      × EachAccepts mail proxies net http rt contents (payload_of rt ops ns n)
          (addressed rt ops ns receivers w n)
          (all_outcomes rt ops (payload_of rt ops ns n) (addressed rt ops ns receivers w n) w)

  -- A completion without an error is that of an ID that an Enqueue call returned without an error, and
  -- the notification of that call has been accepted by every target of every addressed receiver, of
  -- which there is at least one: an email target rendered it and made all the calls of the plan, and a
  -- webhook target rendered it, made its request, and got a response with a status from 200 to 299.
  -- The notifications have valid IDs, which Enqueue checks, and a worker reports what its dispatch
  -- gives.
  pub completed-IsAccepted :
      (capacity workers : ℕ) (stored : List (Text × Receiver (Channel Client Data) Value))
      (opts : List (Option (ManagerConfig → ManagerConfig))) (cfg : ManagerConfig)
      → build_manager opts receivers ≡ built cfg stored
      → {s : System Notification} (r : Reach capacity workers s)
      → AllDeliver rt
          (channels mail proxies net http rt contents)
          ns
          receivers
          capacity
          workers
          stored
          r
      → All
          (λ (q : ℕ × Notification). validate_notification_id (ns.id q.1) ≡ none)
          (admitted capacity workers r)
      → (id : ℕ) → Memᴰ (id, none) s.completed
      → (n : Notification) × Memᴰ (id, n) (admitted capacity workers r) × IsAccepted n
  completed-IsAccepted capacity workers stored opts cfg b {s} r d v id m =
      let ops = channels mail proxies net http rt contents in
      elim (All-at (IsSettled rt ops ns receivers (admitted capacity workers r)) s.completed
        (id, none) m
        (completed_so_far-IsSettled rt ops ns receivers capacity workers stored opts cfg b r d v)) [
          | inl stopped ↦ cc
          | inr (n, here, w, w', same) ↦
              let (n', e, a, ends, all) =
                send-EachAccepts mail proxies net http rt contents ns receivers w w' false (some n)
                  same in
              let k : n ≡ n' = cc in (n, here, subst IsAccepted (sym k) (w, a, all))
        ]
