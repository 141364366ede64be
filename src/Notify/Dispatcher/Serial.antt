-- ===== src/Notify/Dispatcher/Serial.antt =====
-- notify/dispatcher.go with notify/send.go: a worker that delivers what is queued.
use mathlib.Core.List.{append-nil, append_assoc}
use notifykit.Base.{
  ℕ, ◌+◌, ◌-◌, ◌≤◌, ◌≡◌, refl, ◌∙◌, sym, arith, false, true, ltb, Option, none, some, List, [], ◌∷◌,
  ◌++◌, length,
}
use notifykit.Text.{Text}
use notifykit.Notify.Error.{Error}
use notifykit.Notify.Retry.{Runtime}
use notifykit.Notify.Receivers.{Receiver, resolve_receivers, validate_notification_id}
use notifykit.Notify.Delivery.{Targets}
use notifykit.Notify.Store.{get, delete}
use notifykit.Notify.Manager.{Manager, Act, runs, blocks, panics, ◌>>=◌}
use notifykit.Notify.Manager
use notifykit.Notify.Send.{Notifications, receiver_ids, send}
use notifykit.Notify.Send.Laws.{Sends, send-Sends}
use notifykit.Notify.Dispatcher.{
  ManagerConfig, built, build_manager, dispatch_queued, dispatch_queued-send,
}
use notifykit.Notify.Dispatcher.Worker.{
  Report, Event, received, Worker, report_of, line_of, deliver_queued, dispatch_found, dispatch_id,
  start,
}

module _ {Notification : Type 0} where
  -- Each ID has its notification in the store when its turn comes, and the notification an ID.
  abbrev pub AreQueued :
      Notifications Notification → List (ℕ × Notification) → List (ℕ × Notification) → Type 0
  AreQueued ns [] store = Unit
  AreQueued ns ((id, n) ∷ items) store =
      (get id store ≡ some n)
      × (validate_notification_id (ns.id n) ≡ none)
      × AreQueued ns items (delete id store)

  abbrev pub events_of : List (ℕ × Notification) → List Event
  events_of [] = []
  events_of ((id, n) ∷ items) = received id ∷ events_of items

  abbrev pub without : List (ℕ × Notification) → List (ℕ × Notification) → List (ℕ × Notification)
  without [] store = store
  without ((id, n) ∷ items) store = without items (delete id store)

module _ {Target Notification Value World : Type 0} (rt : Runtime World)
    (ops : Targets Target Notification Value World) (ns : Notifications Notification)
    (receivers : List (Text × Option (Receiver Target Value))) where
  -- Calls of Send one after the other, and the report of each.
  pub data AreSent : List (ℕ × Notification) → World → List Report → World → Type 0 where
    nothing : {w : World} → AreSent [] w [] w
    one :
        (id : ℕ) (n : Notification) {items : List (ℕ × Notification)} {w w' w'' : World}
        {e : Option Error} {rs : List Report}
        → send rt ops ns false (some n) receivers w ≡ some (e, w')
        → AreSent items w' rs w''
        → AreSent ((id, n) ∷ items) w (report_of ns id n e ∷ rs) w''

  pub send_returns :
      (n : Notification) (w : World)
      → (e : Option Error) × (w' : World) × (send rt ops ns false (some n) receivers w
          ≡ some (e, w'))
  send_returns n w = go (send-Sends rt ops ns receivers w false (some n))
    where
      go :
          {x : Option (Option Error × World)}
          → Sends rt ops ns receivers w false (some n) x
          → (e : Option Error) × (w' : World) × (x ≡ some (e, w'))
      go (Sends.refused e r h) = (some e, w, h)
      go (Sends.sent m c h i u a x) = (_, _, x)

  module _ (stored : List (Text × Receiver Target Value)) where
    abbrev after :
        ℕ
        → Notification
        → Worker Notification World
        → Option Error
        → World
        → Worker Notification World
    after id n s e w = record s {
      manager = record (s.manager) {
        store = delete id s.manager.store;
        slots = s.manager.slots - 1;
      };
      world = w;
      reports = s.reports ++ report_of ns id n e ∷ [];
      lines =
          s.lines ++ line_of ns id n (resolve_receivers stored (receiver_ids (ns.router n))) e ∷ [];
    }

    dispatch_id-runs :
        (id : ℕ) (n : Notification) (s : Worker Notification World) (e : Option Error) (w' : World)
        → get id s.manager.store ≡ some n
        → 1 ≤ s.manager.slots
        → dispatch_queued rt ops ns n stored s.world ≡ some (e, w')
        → dispatch_id rt ops ns stored id s ≡ runs (after id n s e w')
    unfolding dispatch_id Manager.begin_dispatch Manager.receive_slot dispatch_found deliver_queued
    dispatch_id-runs id n s e w' h k d =
        let first : ltb 0 s.manager.slots ≡ true = ground arith in
        rw (dispatch_id, Manager.begin_dispatch, h, Manager.receive_slot, first, deliver_queued, d)
          refl

    -- A worker that takes the IDs of queued notifications does what calls of Send do, one after the
    -- other in the order of the queue, and reports what each returns; it gives back a slot for each,
    -- and removes them from the store.
    pub start-AreSent :
        (opts : List (Option (ManagerConfig → ManagerConfig))) (cfg : ManagerConfig)
        (items : List (ℕ × Notification)) (s : Worker Notification World)
        → build_manager opts receivers ≡ built cfg stored
        → AreQueued ns items s.manager.store
        → length items ≤ s.manager.slots
        → (t : Worker Notification World) × (rs : List Report) × (start rt ops ns stored
              (events_of items)
              s
            ≡ runs t)
          × (t.reports ≡ s.reports ++ rs)
          × AreSent items s.world rs t.world
          × (t.manager.store ≡ without items s.manager.store)
          × (t.manager.slots + length items ≡ s.manager.slots)
    unfolding start
    start-AreSent opts cfg [] s b q l =
        (s, [], refl, sym (append-nil s.reports), AreSent.nothing, refl, omega arith)
    start-AreSent opts cfg ((id, n) ∷ items) s b q l =
        let (e, w', sent) = send_returns n s.world in
        let (c, k, same) =
          dispatch_queued-send rt ops ns opts receivers cfg stored n s.world b q.1 in
        let step = dispatch_id-runs id n s e w' q.0 (omega (arith, l)) (sym same ∙ sent) in
        let (t, rs, ran, reports, served, store, slots) =
          start-AreSent opts cfg items (after id n s e w') b q.2 (omega (arith, l)) in
        (
          t,
          _,
          rw (step, ran) refl,
          reports ∙ append_assoc s.reports _ rs,
          AreSent.one id n sent served,
          store,
          omega (arith, slots, l),
        )
