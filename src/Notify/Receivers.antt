-- ===== src/Notify/Receivers.antt =====
-- notify/send.go: normalizeReceivers, validateReceivers, resolveReceivers, validateNotificationID.
-- notify/receiver.go is in the child Build.
-- A map is an association list with distinct keys, whose order is the order in which this run
-- ranges over it. A nil pointer or interface is `none`. Cloning leaves a value as it is here, since
-- values are not shared. Targets and the values of custom data are types of the caller's.
pub mod Build
pub mod Normal
pub mod Resolve
pub mod Order
use notifykit.Base.{
  ℕ, zero, suc, ℤ, Bool, true, false, not, ◌||◌, ◌≡◌, Option, none, some, List, [], ◌∷◌, ◌++◌, pos,
  map, is_empty, if◌then◌else◌,
}
use notifykit.Text.{Text, text_eq, text_leb, text_or, bytes}
use notifykit.Notify.Error.{Error, message}
use notifykit.Notify.Backoff.{RetryConfig}

-- types.go, Receiver.
pub record Receiver (Target Value : Type 0) : Type 0 where
  pub id : Text
  pub name : Text
  pub retry : RetryConfig
  pub targets : List (Option Target)
  pub custom_data : List (Text × Value)

-- Whether the text is in the list; also the map `seen`.
unfoldable pub is_in : Text → List Text → Bool
is_in a [] = false
is_in a (b ∷ bs) = text_eq b a || is_in a bs

module _ {V : Type 0} where
  unfoldable pub lookup : Text → List (Text × V) → Option V
  lookup k [] = none
  lookup k ((j, v) ∷ m) = if text_eq j k then some v else lookup k m

  unfoldable pub insert : Text → V → List (Text × V) → List (Text × V)
  insert k v [] = (k, v) ∷ []
  insert k v ((j, w) ∷ m) = if text_eq j k then (j, v) ∷ m else (j, w) ∷ insert k v m

  unfoldable pub values : List (Text × V) → List V
  values [] = []
  values ((k, v) ∷ m) = v ∷ values m

-- The inner loop of validateReceivers.
unfoldable pub has_nil {ℓ} : {Target : Type ℓ} → List (Option Target) → Bool
has_nil [] = false
has_nil (none ∷ ts) = true
has_nil (some t ∷ ts) = has_nil ts

module _ {Target Value : Type 0} where
  -- The copy that normalizeReceivers puts under the key.
  unfoldable pub normalized : Text → Receiver Target Value → Receiver Target Value
  normalized key r = record r { id = text_or r.id key; name = text_or r.name key }

  unfoldable pub normalize_receivers :
      List (Text × Option (Receiver Target Value)) → List (Text × Receiver Target Value)
  unfolding normalized
  normalize_receivers [] = []
  normalize_receivers ((key, none) ∷ m) = normalize_receivers m
  normalize_receivers ((key, some r) ∷ m) = (key, normalized key r) ∷ normalize_receivers m

  unfoldable pub validate_receivers : List (Text × Receiver Target Value) → Option Error
  unfolding has_nil
  validate_receivers [] = none
  validate_receivers ((key, r) ∷ m) =
      let rest = validate_receivers m in
      if is_empty r.targets
      then some (message (bytes "receiver %q has no targets") (key ∷ []))
      else if has_nil r.targets
      then some (message (bytes "receiver %q target is nil") (key ∷ []))
      else rest

  -- slices.SortFunc by the ID, as an insertion sort.
  unfoldable pub insert_by_id :
      Receiver Target Value → List (Receiver Target Value) → List (Receiver Target Value)
  insert_by_id r [] = r ∷ []
  insert_by_id r (s ∷ ss) = if text_leb r.id s.id then r ∷ s ∷ ss else s ∷ insert_by_id r ss

  unfoldable pub sort_by_id : List (Receiver Target Value) → List (Receiver Target Value)
  unfolding insert_by_id
  sort_by_id [] = []
  sort_by_id (r ∷ rs) = insert_by_id r (sort_by_id rs)

  -- The loop of resolveReceivers over the requested IDs.
  unfoldable pub resolve_named :
      List (Text × Receiver Target Value) → List Text → List Text → List (Receiver Target Value)
  unfolding is_in lookup
  resolve_named receivers seen [] = []
  resolve_named receivers seen (id ∷ ids) =
      let skipped = resolve_named receivers seen ids in
      let rest = resolve_named receivers (id ∷ seen) ids in
      if is_in id seen
      then skipped
      else elim (lookup id receivers) [ none ↦ rest | some r ↦ r ∷ rest ]

  unfoldable pub resolve_receivers :
      List (Text × Receiver Target Value) → List Text → List (Receiver Target Value)
  unfolding values sort_by_id resolve_named
  resolve_receivers receivers [] = sort_by_id (values receivers)
  resolve_receivers receivers (id ∷ ids) = resolve_named receivers [] (id ∷ ids)

unfoldable pub validate_notification_id : Text → Option Error
validate_notification_id [] = some (message (bytes "notification ID is required") [])
validate_notification_id (c ∷ id) = none
