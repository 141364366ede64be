-- ===== src/Notify/Store.antt =====
-- notify/store.go: the map of queued notifications. The lock makes each operation atomic, so an
-- operation is a function here. A queue ID is a number.
use notifykit.Base.{
  ℕ, suc, ◌+◌, ◌≡◌, refl, Bool-cases, inl, inr, Option, none, some, List, [], ◌∷◌, ◌++◌, ◌==◌,
  if◌then◌else◌, arith, ◌<◌,
}

-- How often a number occurs in a list.
unfoldable pub count : ℕ → List ℕ → ℕ
count a [] = 0
count a (x ∷ xs) = let rest = count a xs in if x == a then suc rest else rest

pub count-append : (a : ℕ) (xs ys : List ℕ) → count a (xs ++ ys) ≡ count a xs + count a ys
unfolding count
count-append a [] ys = omega arith
count-append a (x ∷ xs) ys = ground (arith, count-append a xs ys)

module _ {Notification : Type 0} where
  unfoldable pub put : ℕ → Notification → List (ℕ × Notification) → List (ℕ × Notification)
  put id n [] = (id, n) ∷ []
  put id n ((j, m) ∷ items) = if j == id then (id, n) ∷ items else (j, m) ∷ put id n items

  unfoldable pub get : ℕ → List (ℕ × Notification) → Option Notification
  get id [] = none
  get id ((j, m) ∷ items) = if j == id then some m else get id items

  unfoldable pub delete : ℕ → List (ℕ × Notification) → List (ℕ × Notification)
  delete id [] = []
  delete id ((j, m) ∷ items) = let rest = delete id items in if j == id then rest else (j, m) ∷ rest

  abbrev pub ids : List (ℕ × Notification) → List ℕ
  ids [] = []
  ids ((j, m) ∷ items) = j ∷ ids items

  pub count-put :
      (a id : ℕ) (n : Notification) (items : List (ℕ × Notification))
      → count id (ids items) ≡ 0
      → count a (ids (put id n items))
        ≡ (if id == a then suc (count a (ids items)) else count a (ids items))
  unfolding count put
  count-put a id n [] h = ground arith
  count-put a id n ((j, m) ∷ items) h = ground (arith, count-put a id n items)

  pub count-delete :
      (a id : ℕ) (items : List (ℕ × Notification))
      → count a (ids (delete id items)) ≡ (if id == a then 0 else count a (ids items))
  unfolding count delete
  count-delete a id [] = ground arith
  count-delete a id ((j, m) ∷ items) = ground (arith, count-delete a id items)

  pub get-found :
      (id : ℕ) (items : List (ℕ × Notification))
      → 0 < count id (ids items)
      → (n : Notification) × (get id items ≡ some n)
  unfolding count get
  get-found id [] h = absurd (omega arith)
  get-found id ((j, m) ∷ items) h = elim (Bool-cases (j == id)) [
    | inl hit ↦ rw hit (m, refl)
    | inr miss ↦ rw miss (get-found id items (ground arith))
  ]
