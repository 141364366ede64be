-- ===== src/Notify/Delivery/Shared.antt =====
-- notify/delivery.go: dispatchReceiver with the maps of custom data as shared objects, and maps.Clone.
-- A receiver's map is its address. The fields custom_data of a receiver and of a payload, which hold a
-- map as a value, are not used here.
pub mod Isolation
pub mod Reading
use notifykit.Base.{ℕ, zero, suc, ℤ, Bool, Option, none, some, List, [], ◌∷◌, ◌++◌}
use notifykit.Text.{Text}
use notifykit.Heap.{Heap, clone}
use notifykit.Notify.Error.{Error, DeliveryResult, delivery_error}
use notifykit.Notify.Retry.{Runtime, Outcome, with_retry}
use notifykit.Notify.Receivers.{Receiver}
use notifykit.Notify.Delivery.{Payload, join}

-- The methods of a Target that is not nil; Send gets a payload with the address of its custom data.
pub record SharedTargets (Target Notification Value World : Type 0) : Type 0 where
  pub type_name : Target → Text
  pub send :
      Target
      → Payload Notification Value
      → Option ℕ
      → World × Heap Value
      → DeliveryResult × Option Error × (World × Heap Value)

-- A context, timers and random numbers do not touch the maps.
abbrev pub with_heap : {Value World : Type 0} → Runtime World → Runtime (World × Heap Value)
with_heap rt = record {
  ctx_err = λ m. rt.ctx_err m.0;
  await = λ d m. let (fired, w) = rt.await d m.0 in (fired, (w, m.1));
  random = λ m. rt.random m.0;
}

module _ {Target Notification Value World : Type 0} (rt : Runtime World)
    (ops : SharedTargets Target Notification Value World) where
  -- withRetry of a target, with this map.
  unfoldable pub deliver_with :
      Receiver Target Value
      → Payload Notification Value
      → Target
      → World
      → Option ℕ × Heap Value
      → Outcome (World × Heap Value)
  deliver_with receiver payload target w (p, h) =
      with_retry (with_heap rt) receiver.retry
        (ops.send target (record payload { receiver = receiver.name }) p) (w, h)

  unfoldable pub shared_failure :
      Receiver Target Value → ℕ → Target → Outcome (World × Heap Value) → List Error
  shared_failure receiver index target o = elim o.error [
    | none ↦ []
    | some e ↦ delivery_error receiver.id (ops.type_name target) index o.attempts o.result e ∷ []
  ]

  -- The loop of dispatchReceiver, where `give` gives a target its map; `index` is the index of the
  -- first target left.
  unfoldable pub deliver_all :
      (Heap Value → Option ℕ × Heap Value)
      → Receiver Target Value
      → Payload Notification Value
      → List Error
      → ℕ
      → List (Option Target)
      → World × Heap Value
      → Option (List Error × (World × Heap Value))
  deliver_all give receiver payload errs index [] m = some (errs, m)
  deliver_all give receiver payload errs index (none ∷ targets) m = none
  deliver_all give receiver payload errs index (some target ∷ targets) (w, h) =
      let o = deliver_with receiver payload target w (give h) in
      deliver_all give receiver payload (errs ++ shared_failure receiver index target o) (suc index)
        targets o.world

  -- dispatchReceiver of a receiver whose CustomData is the map at the address: each target gets a
  -- clone.
  unfoldable pub dispatch_shared :
      Receiver Target Value
      → Option ℕ
      → Payload Notification Value
      → World × Heap Value
      → Option (Option Error × (World × Heap Value))
  dispatch_shared receiver p payload m =
      elim (deliver_all (clone p) receiver payload [] 0 receiver.targets m) [
        | none ↦ none
        | some (errs, m') ↦ some (join errs, m')
      ]
