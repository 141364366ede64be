-- ===== src/Notify/Receivers/Normal.antt =====
-- What normalizeReceivers and validateReceivers of notify/send.go give.
use notifykit.Base.{
  ◌≡◌, ◌≢◌, ◌↔◌, refl, ap, subst, false, Option, none, some, List, [], ◌∷◌, arith, is_empty_iff,
  All, Bool-cases, inl, inr,
}
use notifykit.Text.{Text, text_eq, text_or, text_eq_sound}
use notifykit.Notify.Receivers.{
  Receiver, lookup, normalized, normalize_receivers, has_nil, validate_receivers,
}

abbrev pub keys {ℓ} : {V : Type ℓ} → List (Text × V) → List Text
keys [] = []
keys ((k, v) ∷ m) = k ∷ keys m

-- No two entries of the map have the same key.
abbrev pub KeysDistinct {ℓ} : {V : Type ℓ} → List (Text × V) → Type 0
KeysDistinct [] = Unit
KeysDistinct ((k, v) ∷ m) = All (λ j. text_eq j k ≡ false) (keys m) × KeysDistinct m

text_or_idem : (a d : Text) → text_or (text_or a d) d ≡ text_or a d
text_or_idem [] [] = refl
text_or_idem [] (y ∷ d) = refl
text_or_idem (x ∷ a) d = refl

has_nil_iff {ℓ} :
    {A : Type ℓ} (ts : List (Option A)) → (has_nil ts ≡ false) ↔ All (λ t. t ≢ none) ts
unfolding has_nil
has_nil_iff [] = (λ h. tt, λ h. refl)
has_nil_iff (none ∷ ts) = (λ h. cc, λ h. absurd (h.0 refl))
has_nil_iff (some t ∷ ts) = (λ h. (λ e. cc, (has_nil_iff ts).0 h), λ h. (has_nil_iff ts).1 h.1)

module _ {Target Value : Type 0} where
  -- A map to pointers, none of them nil.
  abbrev pub pointers :
      List (Text × Receiver Target Value) → List (Text × Option (Receiver Target Value))
  pointers [] = []
  pointers ((k, r) ∷ m) = (k, some r) ∷ pointers m

  normalized_idem :
      (k : Text) (r : Receiver Target Value) → normalized k (normalized k r) ≡ normalized k r
  unfolding normalized
  normalized_idem k r = cc (text_or_idem r.id k, text_or_idem r.name k)

  -- Normalizing normalized receivers again changes nothing.
  normalize_receivers_idem :
      (m : List (Text × Option (Receiver Target Value)))
      → normalize_receivers (pointers (normalize_receivers m)) ≡ normalize_receivers m
  unfolding normalize_receivers
  normalize_receivers_idem [] = refl
  normalize_receivers_idem ((k, none) ∷ m) = normalize_receivers_idem m
  normalize_receivers_idem ((k, some r) ∷ m) = cc (normalized_idem k r, normalize_receivers_idem m)

  -- The receiver that a map of pointers gives, with its ID and name defaulted to the key.
  abbrev pub found : Text → Option (Option (Receiver Target Value)) → Option (Receiver Target Value)
  found key none = none
  found key (some none) = none
  found key (some (some r)) = some (normalized key r)

  lookup-absent :
      (key : Text) (m : List (Text × Option (Receiver Target Value)))
      → All (λ j. text_eq j key ≡ false) (keys m)
      → lookup key (normalize_receivers m) ≡ none
  unfolding lookup normalize_receivers
  lookup-absent key [] h = refl
  lookup-absent key ((k, none) ∷ m) h = lookup-absent key m h.1
  lookup-absent key ((k, some r) ∷ m) h = rw h.0 (lookup-absent key m h.1)

  -- A lookup in the normalized map gives nothing where the map has no entry or a nil one, and
  -- otherwise the entry with its ID and name defaulted to the key.
  lookup-normalize_receivers :
      (key : Text) (m : List (Text × Option (Receiver Target Value)))
      → KeysDistinct m
      → lookup key (normalize_receivers m) ≡ found key (lookup key m)
  unfolding lookup normalize_receivers
  lookup-normalize_receivers key [] d = refl
  lookup-normalize_receivers key ((k, none) ∷ m) d = elim (Bool-cases (text_eq k key)) [
    | inl same ↦ rw same (
        lookup-absent key m
          (subst (λ t. All (λ j. text_eq j t ≡ false) (keys m)) (text_eq_sound k key same) d.0))
    | inr other ↦ rw other (lookup-normalize_receivers key m d.1)
  ]
  lookup-normalize_receivers key ((k, some r) ∷ m) d = elim (Bool-cases (text_eq k key)) [
    | inl same ↦ rw (same) (ap (λ t. some (normalized t r)) (text_eq_sound k key same))
    | inr other ↦ rw other (lookup-normalize_receivers key m d.1)
  ]

  -- A receiver that can be delivered to: it has a target, and no nil target.
  abbrev pub IsUsable : Text × Receiver Target Value → Type 0
  IsUsable (k, r) = (r.targets ≢ []) × All (λ t. t ≢ none) r.targets

  -- Validation passes just when every receiver of the map has a target and none of its targets is
  -- nil.
  pub validate_receivers_iff :
      (m : List (Text × Receiver Target Value)) → (validate_receivers m ≡ none) ↔ All IsUsable m
  unfolding validate_receivers
  validate_receivers_iff [] = (λ h. tt, λ h. refl)
  validate_receivers_iff ((k, r) ∷ m) =
      (there (validate_receivers_iff m).0, back (validate_receivers_iff m).1)
    where
      there :
          (validate_receivers m ≡ none → All IsUsable m)
          → validate_receivers ((k, r) ∷ m) ≡ none
          → All IsUsable ((k, r) ∷ m)
      there ih h = (
        ((is_empty_iff r.targets).0 (ground arith), (has_nil_iff r.targets).0 (ground arith)),
        ih (ground arith),
      )

      back :
          (All IsUsable m → validate_receivers m ≡ none)
          → All IsUsable ((k, r) ∷ m)
          → validate_receivers ((k, r) ∷ m) ≡ none
      back ih h = rw ((is_empty_iff r.targets).1 h.0.0, (has_nil_iff r.targets).1 h.0.1) (ih h.1)
