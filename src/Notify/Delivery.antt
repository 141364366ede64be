-- ===== src/Notify/Delivery.antt =====
-- notify/delivery.go: the delivery engine; types.go: Payload.
-- A target and a notification are the caller's: `Targets` and `Notifications` hold their methods.
-- The engine's calls go through the world of `Runtime`. A call of a method of a nil target panics:
-- the result `none`. Log lines are left out.
pub mod Report
pub mod Shared
use notifykit.Base.{ℕ, zero, suc, Option, none, some, List, [], ◌∷◌, ◌++◌}
use notifykit.Text.{Text}
use notifykit.Notify.Error.{Error, Errors, nil, cons, joined, delivery_error, DeliveryResult}
use notifykit.Notify.Retry.{Runtime, Outcome, with_retry}
use notifykit.Notify.Receivers.{Receiver}

pub record Payload (Notification Value : Type 0) : Type 0 where
  pub notification : Option Notification
  pub receiver : Text
  pub custom_data : List (Text × Value)

-- The methods of a Target that is not nil.
pub record Targets (Target Notification Value World : Type 0) : Type 0 where
  pub type_name : Target → Text
  pub send : Target → Payload Notification Value → World → DeliveryResult × Option Error × World

abbrev pub to_errors : List Error → Errors
to_errors [] = nil
to_errors (e ∷ es) = cons e (to_errors es)

-- errors.Join of errors that are not nil.
unfoldable pub join : List Error → Option Error
join [] = none
join (e ∷ es) = some (joined (to_errors (e ∷ es)))

-- `errs = append(errs, err)` where err is not nil.
abbrev pub appended : List Error → Option Error → List Error
appended errs none = errs
appended errs (some e) = errs ++ e ∷ []

module _ {Target Notification Value World : Type 0} (rt : Runtime World)
    (ops : Targets Target Notification Value World) where
  -- What one target does under its receiver's retry configuration.
  unfoldable pub deliver :
      Receiver Target Value → Payload Notification Value → Target → World → Outcome World
  deliver receiver payload target w =
      with_retry rt receiver.retry
        (ops.send target
          (record payload { receiver = receiver.name; custom_data = receiver.custom_data }))
        w

  -- The loop body's `errs = append(errs, &DeliveryError{...})`, if the outcome is an error.
  unfoldable pub failure : Receiver Target Value → ℕ → Target → Outcome World → List Error
  failure receiver index target o = elim o.error [
    | none ↦ []
    | some e ↦ delivery_error receiver.id (ops.type_name target) index o.attempts o.result e ∷ []
  ]

  -- The loop of dispatchReceiver; `index` is the index of the first target left.
  unfoldable pub dispatch_targets :
      Receiver Target Value
      → Payload Notification Value
      → List Error
      → ℕ
      → List (Option Target)
      → World
      → Option (List Error × World)
  dispatch_targets receiver payload errs index [] w = some (errs, w)
  dispatch_targets receiver payload errs index (none ∷ targets) w = none
  dispatch_targets receiver payload errs index (some target ∷ targets) w =
      let o = deliver receiver payload target w in
      dispatch_targets receiver payload (errs ++ failure receiver index target o) (suc index)
        targets o.world

  unfoldable pub dispatch_receiver :
      Receiver Target Value → Payload Notification Value → World → Option (Option Error × World)
  dispatch_receiver receiver payload w =
      elim (dispatch_targets receiver payload [] 0 receiver.targets w) [
        | none ↦ none
        | some (errs, w') ↦ some (join errs, w')
      ]

  -- The loop of dispatch.
  unfoldable pub dispatch_receivers :
      Payload Notification Value
      → List Error
      → List (Receiver Target Value)
      → World
      → Option (List Error × World)
  dispatch_receivers payload errs [] w = some (errs, w)
  dispatch_receivers payload errs (r ∷ rs) w = elim (dispatch_receiver r payload w) [
    | none ↦ none
    | some (e, w') ↦ dispatch_receivers payload (appended errs e) rs w'
  ]

  unfoldable pub dispatch :
      Payload Notification Value
      → List (Receiver Target Value)
      → World
      → Option (Option Error × World)
  dispatch payload receivers w = elim (dispatch_receivers payload [] receivers w) [
    | none ↦ none
    | some (errs, w') ↦ some (join errs, w')
  ]
