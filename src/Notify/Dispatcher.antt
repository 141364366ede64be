-- ===== src/Notify/Dispatcher.antt =====
-- notify/manager.go: NewManager and its options; notify/dispatcher.go: what a worker does with the
-- notification that it found. Here the logger and the callback are left out;
-- Worker has them.
pub mod Worker
pub mod Serial
pub mod Completions
use notifykit.Base.{
  ◌≡◌, refl, subst, ℤ, pos, ◌≤ℤ◌, false, Option, none, some, List, [], ◌∷◌, arith, ltb_ℤ, leb_ℤ,
  if◌then◌else◌,
}
use notifykit.Text.{Text, bytes}
use notifykit.Notify.Error.{Error, message}
use notifykit.Notify.Retry.{Runtime}
use notifykit.Notify.Receivers.{
  Receiver, normalize_receivers, validate_receivers, resolve_receivers, validate_notification_id,
}
use notifykit.Notify.Delivery.{Targets, dispatch}
use notifykit.Notify.Send.{Notifications, receiver_ids, send, send_normalized, send_resolved}

pub record ManagerConfig : Type 0 where
  pub workers : ℤ
  pub capacity : ℤ

unfoldable pub with_queue_capacity : ℤ → ManagerConfig → ManagerConfig
with_queue_capacity capacity cfg = record cfg { capacity = capacity }

unfoldable pub with_workers : ℤ → ManagerConfig → ManagerConfig
with_workers workers cfg = if ltb_ℤ (pos 0) workers then record cfg { workers = workers } else cfg

-- The loop over the options, in which a nil option is passed over.
unfoldable pub apply_options :
    List (Option (ManagerConfig → ManagerConfig)) → ManagerConfig → ManagerConfig
apply_options [] cfg = cfg
apply_options (none ∷ opts) cfg = apply_options opts cfg
apply_options (some opt ∷ opts) cfg = apply_options opts (opt cfg)

-- The error of NewManager, or the configuration and the receivers of the manager.
pub data Built (Receivers : Type 0) : Type 0 where
  rejected : Error → Built Receivers
  built : ManagerConfig → Receivers → Built Receivers

module _ {Target Value : Type 0} where
  -- From the options on.
  unfoldable pub configured :
      ManagerConfig
      → List (Text × Option (Receiver Target Value))
      → Built (List (Text × Receiver Target Value))
  configured cfg receivers =
      if ltb_ℤ cfg.capacity (pos 1)
      then rejected (message (bytes "queue capacity must be greater than zero") [])
      else if leb_ℤ cfg.workers (pos 0)
      then rejected (message (bytes "workers must be greater than zero") [])
      else elim (validate_receivers (normalize_receivers receivers)) [
        | some e ↦ rejected e
        | none ↦ built cfg (normalize_receivers receivers)
      ]

  unfoldable pub build_manager :
      List (Option (ManagerConfig → ManagerConfig))
      → List (Text × Option (Receiver Target Value))
      → Built (List (Text × Receiver Target Value))
  build_manager opts receivers =
      configured (apply_options opts (record { workers = pos 1; capacity = pos 128 })) receivers

  configured-built :
      (cfg : ManagerConfig) (receivers : List (Text × Option (Receiver Target Value)))
      (cfg' : ManagerConfig) (stored : List (Text × Receiver Target Value))
      → configured cfg receivers ≡ built cfg' stored
      → (pos 1 ≤ℤ cfg'.capacity)
        × (pos 1 ≤ℤ cfg'.workers)
        × (stored ≡ normalize_receivers receivers)
        × (validate_receivers stored ≡ none)
  unfolding configured
  configured-built cfg receivers cfg' stored h = ground arith

module _ {Target Notification Value World : Type 0} (rt : Runtime World)
    (ops : Targets Target Notification Value World) (ns : Notifications Notification) where
  -- dispatch from the resolved receivers on: the outcome of the completion.
  unfoldable pub dispatch_resolved :
      Notification → List (Receiver Target Value) → World → Option (Option Error × World)
  dispatch_resolved n [] w = some (some (message (bytes "no receivers resolved") []), w)
  dispatch_resolved n (r ∷ rs) w =
      dispatch rt ops (record { notification = some n; receiver = []; custom_data = [] }) (r ∷ rs) w

  -- dispatch from resolveReceivers on.
  unfoldable pub dispatch_queued :
      Notification → List (Text × Receiver Target Value) → World → Option (Option Error × World)
  dispatch_queued n receivers w =
      dispatch_resolved n (resolve_receivers receivers (receiver_ids (ns.router n))) w

  dispatch_resolved-send :
      (n : Notification) (rs : List (Receiver Target Value)) (w : World)
      → send_resolved rt ops ns n rs w ≡ dispatch_resolved n rs w
  unfolding dispatch_resolved send_resolved
  dispatch_resolved-send n [] w = refl
  dispatch_resolved-send n (r ∷ rs) w = refl

  send-dispatch_queued :
      (n : Notification) (receivers : List (Text × Option (Receiver Target Value))) (w : World)
      → validate_notification_id (ns.id n) ≡ none
      → validate_receivers (normalize_receivers receivers) ≡ none
      → send rt ops ns false (some n) receivers w
        ≡ dispatch_queued n (normalize_receivers receivers) w
  unfolding dispatch_queued send send_normalized
  send-dispatch_queued n receivers w v u =
      rw (v, send, u, send_normalized)
        (dispatch_resolved-send n
          (resolve_receivers (normalize_receivers receivers) (receiver_ids (ns.router n))) w)

  -- NewManager accepts only a positive capacity and a positive number of workers, and the outcome of
  -- a notification that went through the queue of its manager is what Send returns for the same
  -- notification and receivers, if the notification has a valid ID.
  pub dispatch_queued-send :
      (opts : List (Option (ManagerConfig → ManagerConfig)))
      (receivers : List (Text × Option (Receiver Target Value))) (cfg : ManagerConfig)
      (stored : List (Text × Receiver Target Value)) (n : Notification) (w : World)
      → build_manager opts receivers ≡ built cfg stored
      → validate_notification_id (ns.id n) ≡ none
      → (pos 1 ≤ℤ cfg.capacity)
        × (pos 1 ≤ℤ cfg.workers)
        × (send rt ops ns false (some n) receivers w ≡ dispatch_queued n stored w)
  unfolding build_manager
  dispatch_queued-send opts receivers cfg stored n w h v =
      let (c, k, s, u) = configured-built _ receivers cfg stored h in
      (
        c,
        k,
        rw s (send-dispatch_queued n receivers w v (subst (λ l. validate_receivers l ≡ none) s u)),
      )
