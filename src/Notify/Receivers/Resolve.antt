-- ===== src/Notify/Receivers/Resolve.antt =====
-- The receivers that resolveReceivers of notify/send.go selects by ID.
use notifykit.Base.{
  ◌≡◌, ◌≢◌, refl, ap, ◌∙◌, sym, subst, true, ◌||◌, none, some, List, [], ◌∷◌, arith, if◌then◌else◌,
  Bool-cases, inl, inr, Option-cases,
}
use notifykit.Text.{Text, text_eq, text_eq_sound}
use notifykit.Notify.Receivers.{Receiver, is_in, lookup, resolve_named, resolve_receivers}

-- The list less the texts that `seen` holds.
unfoldable pub without : List Text → List Text → List Text
without seen [] = []
without seen (x ∷ xs) = let rest = without seen xs in if is_in x seen then rest else x ∷ rest

-- The list with the first of equal texts kept.
unfoldable pub nub : List Text → List Text
nub [] = []
nub (x ∷ xs) = x ∷ without (x ∷ []) (nub xs)

without-cons :
    (x : Text) (seen xs : List Text) → without (x ∷ seen) xs ≡ without seen (without (x ∷ []) xs)
unfolding without is_in
without-cons x seen [] = refl
without-cons x seen (y ∷ ys) = ground (arith, without-cons x seen ys)

without-nil : (xs : List Text) → without [] xs ≡ xs
unfolding without is_in
without-nil [] = refl
without-nil (x ∷ xs) = ap (◌∷◌ x) (without-nil xs)

without-mem :
    (x : Text) (seen xs : List Text) → is_in x seen ≡ true → without (x ∷ seen) xs ≡ without seen xs
unfolding without is_in
without-mem x seen [] h = refl
without-mem x seen (y ∷ ys) h = elim (Bool-cases (text_eq x y)) [
  | inl same ↦
      rw (same, subst (λ t. is_in t seen ≡ true) (text_eq_sound x y same) h)
        (without-mem x seen ys h)
  | inr other ↦ rw (other) (ground (arith, without-mem x seen ys h))
]

is_in-without :
    (a x : Text) (xs : List Text)
    → (text_eq x a || is_in a (without (x ∷ []) xs)) ≡ (text_eq x a || is_in a xs)
unfolding without is_in
is_in-without a x [] = refl
is_in-without a x (y ∷ ys) = ground (arith, text_eq_sound x y, is_in-without a x ys)

-- `nub` holds what the list holds, and no text twice.
pub is_in-nub : (a : Text) (xs : List Text) → is_in a (nub xs) ≡ is_in a xs
unfolding nub is_in
is_in-nub a [] = refl
is_in-nub a (x ∷ xs) = ground (arith, is_in-without a x (nub xs), is_in-nub a xs)

module _ {Target Value : Type 0} where
  -- The receivers under the IDs that the map has, in the order of the IDs.
  unfoldable pub pick :
      List (Text × Receiver Target Value) → List Text → List (Receiver Target Value)
  pick receivers [] = []
  pick receivers (id ∷ ids) =
      let rest = pick receivers ids in
      elim (lookup id receivers) [ none ↦ rest | some r ↦ r ∷ rest ]

  resolve_named-pick :
      (m : List (Text × Receiver Target Value)) (seen ids : List Text)
      → resolve_named m seen ids ≡ pick m (without seen (nub ids))
  unfolding resolve_named pick without nub
  resolve_named-pick m seen [] = refl
  resolve_named-pick m seen (id ∷ ids) = elim (Bool-cases (is_in id seen)) [
    | inl old ↦
        rw (old, resolve_named-pick m seen ids)
          (ap (pick m) (sym (without-mem id seen (nub ids) old) ∙ without-cons id seen (nub ids)))
    | inr new ↦
        let rest =
          resolve_named-pick m (id ∷ seen) ids ∙ ap (pick m) (without-cons id seen (nub ids)) in
        rw new (elim (Option-cases (lookup id m)) [
          | inl missing ↦ rw (missing, pick) rest
          | inr (r, hit) ↦ rw (hit, pick) (ap (◌∷◌ r) rest)
        ])
  ]

  -- Where IDs are requested, the receivers under the first occurrences of the IDs that the map has
  -- are selected, in the order of the request: an unknown ID is passed over, and an ID that is
  -- requested twice is delivered to once.
  pub resolve_receivers-pick :
      (m : List (Text × Receiver Target Value)) (ids : List Text)
      → ids ≢ []
      → resolve_receivers m ids ≡ pick m (nub ids)
  unfolding resolve_receivers
  resolve_receivers-pick m [] h = absurd (h refl)
  resolve_receivers-pick m (id ∷ ids) h =
      resolve_named-pick m [] (id ∷ ids) ∙ ap (pick m) (without-nil (nub (id ∷ ids)))
