-- ===== src/Notify/Receivers/Order.antt =====
-- The order of the receivers that resolveReceivers of notify/send.go gives when no ID is requested.
use mathlib.Core.List.{Permᴰ}
use mathlib.Core.List.Permᴰ
use notifykit.Base.{
  ◌≡◌, ◌≢◌, refl, ◌∙◌, subst, true, false, List, [], ◌∷◌, arith, Bool-cases, inl, inr, All,
}
use notifykit.Text.{Text, text_leb, text_leb_total, text_leb_trans, text_leb_antisym}
use notifykit.Notify.Receivers.{Receiver, values, insert_by_id, sort_by_id, resolve_receivers}

leb_flip : (a b : Text) → text_leb a b ≡ false → text_leb b a ≡ true
leb_flip a b h = ground (arith, text_leb_total a b)

module _ {Target Value : Type 0} where
  abbrev pub IsSortedById : List (Receiver Target Value) → Type 0
  IsSortedById [] = Unit
  IsSortedById (r ∷ rs) = All (λ s. text_leb r.id s.id ≡ true) rs × IsSortedById rs

  abbrev pub IdsDistinct : List (Receiver Target Value) → Type 0
  IdsDistinct [] = Unit
  IdsDistinct (r ∷ rs) = All (λ s. r.id ≢ s.id) rs × IdsDistinct rs

  insert_by_id-perm :
      (r : Receiver Target Value) (rs : List (Receiver Target Value))
      → Permᴰ (insert_by_id r rs) (r ∷ rs)
  unfolding insert_by_id
  insert_by_id-perm r [] = Permᴰ.refl (r ∷ [])
  insert_by_id-perm r (s ∷ ss) = elim (Bool-cases (text_leb r.id s.id)) [
    | inl le ↦ rw le (Permᴰ.refl (r ∷ s ∷ ss))
    | inr gt ↦ rw gt (Permᴰ.trans (Permᴰ.cons refl (insert_by_id-perm r ss)) (Permᴰ.swap refl refl))
  ]

  sort_by_id-perm : (rs : List (Receiver Target Value)) → Permᴰ (sort_by_id rs) rs
  unfolding sort_by_id
  sort_by_id-perm [] = Permᴰ.nil
  sort_by_id-perm (r ∷ rs) =
      Permᴰ.trans (insert_by_id-perm r (sort_by_id rs)) (Permᴰ.cons refl (sort_by_id-perm rs))

  All-insert_by_id {κ} :
      (P : Receiver Target Value → Type κ) (r : Receiver Target Value)
      (rs : List (Receiver Target Value))
      → P r
      → All P rs
      → All P (insert_by_id r rs)
  unfolding insert_by_id
  All-insert_by_id P r [] p h = (p, tt)
  All-insert_by_id P r (s ∷ ss) p h = elim (Bool-cases (text_leb r.id s.id)) [
    | inl le ↦ rw le (p, h)
    | inr gt ↦ rw gt (h.0, All-insert_by_id P r ss p h.1)
  ]

  All-leb :
      (a b : Text) (rs : List (Receiver Target Value))
      → text_leb a b ≡ true
      → All (λ s. text_leb b s.id ≡ true) rs
      → All (λ s. text_leb a s.id ≡ true) rs
  All-leb a b [] h k = tt
  All-leb a b (r ∷ rs) h k = (text_leb_trans a b r.id h k.0, All-leb a b rs h k.1)

  insert_by_id-IsSortedById :
      (r : Receiver Target Value) (rs : List (Receiver Target Value))
      → IsSortedById rs
      → IsSortedById (insert_by_id r rs)
  unfolding insert_by_id
  insert_by_id-IsSortedById r [] h = (tt, tt)
  insert_by_id-IsSortedById r (s ∷ ss) h = elim (Bool-cases (text_leb r.id s.id)) [
    | inl le ↦ rw le ((le, All-leb r.id s.id ss le h.0), h)
    | inr gt ↦ rw gt (
      All-insert_by_id (λ t. text_leb s.id t.id ≡ true) r ss (leb_flip r.id s.id gt) h.0,
      insert_by_id-IsSortedById r ss h.1,
    )
  ]

  sort_by_id-IsSortedById : (rs : List (Receiver Target Value)) → IsSortedById (sort_by_id rs)
  unfolding sort_by_id
  sort_by_id-IsSortedById [] = tt
  sort_by_id-IsSortedById (r ∷ rs) =
      insert_by_id-IsSortedById r (sort_by_id rs) (sort_by_id-IsSortedById rs)

  -- With no requested ID every receiver of the map is selected, as often as it occurs there, in
  -- ascending order of the IDs.
  pub resolve_all :
      (m : List (Text × Receiver Target Value))
      → Permᴰ (resolve_receivers m []) (values m) × IsSortedById (resolve_receivers m [])
  unfolding resolve_receivers
  resolve_all m = (sort_by_id-perm (values m), sort_by_id-IsSortedById (values m))

  -- Inserting two receivers of different IDs, in either order, gives one list.
  insert_comm :
      (r s : Receiver Target Value) (ts : List (Receiver Target Value))
      → r.id ≢ s.id
      → insert_by_id r (insert_by_id s ts) ≡ insert_by_id s (insert_by_id r ts)
  unfolding insert_by_id
  insert_comm r s [] d = ground (arith, text_leb_total r.id s.id, text_leb_antisym r.id s.id)
  insert_comm r s (t ∷ ts) d = ground (
    arith,
    text_leb_total r.id s.id,
    text_leb_antisym r.id s.id,
    text_leb_trans r.id s.id t.id,
    text_leb_trans s.id r.id t.id,
    insert_comm r s ts d,
  )

  pub All-Permᴰ {κ} :
      (P : Receiver Target Value → Type κ) {xs ys : List (Receiver Target Value)}
      → Permᴰ xs ys
      → All P xs
      → All P ys
  All-Permᴰ P Permᴰ.nil h = tt
  All-Permᴰ P (Permᴰ.cons e p) h = (subst P e h.0, All-Permᴰ P p h.1)
  All-Permᴰ P (Permᴰ.swap e f) h = (subst P f h.1.0, (subst P e h.0, h.1.1))
  All-Permᴰ P (Permᴰ.trans p q) h = All-Permᴰ P q (All-Permᴰ P p h)

  IdsDistinct-Permᴰ :
      {xs ys : List (Receiver Target Value)} → Permᴰ xs ys → IdsDistinct xs → IdsDistinct ys
  IdsDistinct-Permᴰ Permᴰ.nil d = tt
  IdsDistinct-Permᴰ (Permᴰ.cons {b = b} {l₂ = ys} e p) d = (
    subst (λ r. All (λ s. r.id ≢ s.id) ys) e (All-Permᴰ (λ s. _ ≢ s.id) p d.0),
    IdsDistinct-Permᴰ p d.1,
  )
  IdsDistinct-Permᴰ (Permᴰ.swap {l = l} e f) d = (
    (λ q. d.0.0 (cc), subst (λ r. All (λ s. r.id ≢ s.id) l) f d.1.0),
    (subst (λ r. All (λ s. r.id ≢ s.id) l) e d.0.1, d.1.1),
  )
  IdsDistinct-Permᴰ (Permᴰ.trans p q) d = IdsDistinct-Permᴰ q (IdsDistinct-Permᴰ p d)

  sort_by_id-Permᴰ :
      {xs ys : List (Receiver Target Value)}
      → Permᴰ xs ys
      → IdsDistinct xs
      → sort_by_id xs ≡ sort_by_id ys
  unfolding sort_by_id
  sort_by_id-Permᴰ Permᴰ.nil d = refl
  sort_by_id-Permᴰ (Permᴰ.cons e p) d = cc (e, sort_by_id-Permᴰ p d.1)
  sort_by_id-Permᴰ (Permᴰ.swap {a = a} {b = b} {l = l} e f) d =
      insert_comm a b (sort_by_id l) d.0.0 ∙ cc (e, f)
  sort_by_id-Permᴰ (Permᴰ.trans p q) d =
      sort_by_id-Permᴰ p d ∙ sort_by_id-Permᴰ q (IdsDistinct-Permᴰ p d)

  -- Two orders of ranging over one map select the same list, if its receivers have different IDs.
  pub resolve_all_order :
      (m n : List (Text × Receiver Target Value))
      → Permᴰ (values m) (values n)
      → IdsDistinct (values m)
      → resolve_receivers m [] ≡ resolve_receivers n []
  unfolding resolve_receivers
  resolve_all_order m n p d = sort_by_id-Permᴰ p d
