-- ===== src/Heap.antt =====
-- Go maps that are shared: a map is an address, a nil map is none, and maps.Clone gives a new address.
use notifykit.Base.{
  ℕ, suc, ◌≤◌, ◌<◌, ◌≡◌, refl, ◌∙◌, Option, none, some, List, [], arith, ◌==◌, if◌then◌else◌,
}
use notifykit.Text.{Text}

-- The maps, by their addresses, which are below `next`.
pub record Heap (V : Type 0) : Type 0 where
  pub next : ℕ
  pub cell : ℕ → List (Text × V)

-- An address that is in use, or nil.
abbrev pub IsKnown : ℕ → Option ℕ → Type 0
IsKnown limit none = Unit
IsKnown limit (some p) = p < limit

-- An address that is not below the limit, or nil.
abbrev pub IsNew : ℕ → Option ℕ → Type 0
IsNew limit none = Unit
IsNew limit (some p) = limit ≤ p

pub IsKnown-grown :
    (limit high : ℕ) (p : Option ℕ) → limit ≤ high → IsKnown limit p → IsKnown high p
IsKnown-grown limit high none l k = tt
IsKnown-grown limit high (some p) l k = omega (arith, l, k)

pub IsNew-below : (limit low : ℕ) (p : Option ℕ) → low ≤ limit → IsNew limit p → IsNew low p
IsNew-below limit low none l n = tt
IsNew-below limit low (some p) l n = omega (arith, l, n)

module _ {V : Type 0} where
  -- The entries of a map that may be nil.
  abbrev pub entries : Heap V → Option ℕ → List (Text × V)
  entries h none = []
  entries h (some p) = h.cell p

  abbrev pub update : (ℕ → List (Text × V)) → ℕ → List (Text × V) → ℕ → List (Text × V)
  update f p m q = if q == p then m else f q

  -- A write into a map.
  unfoldable pub write : ℕ → List (Text × V) → Heap V → Heap V
  write p m h = record h { cell = update h.cell p m }

  -- A new map with these entries.
  unfoldable pub allocate : List (Text × V) → Heap V → ℕ × Heap V
  allocate m h = (h.next, record { next = suc h.next; cell = update h.cell h.next m })

  -- maps.Clone, which keeps a nil map nil.
  unfoldable pub clone : Option ℕ → Heap V → Option ℕ × Heap V
  unfolding allocate
  clone none h = (none, h)
  clone (some p) h = let (q, h') = allocate (h.cell p) h in (some q, h')

  -- The maps below the limit are unchanged.
  pub record Keeps (limit : ℕ) (h h' : Heap V) : Type 0 where
    pub grown : h.next ≤ h'.next
    pub same : (p : ℕ) → p < limit → h'.cell p ≡ h.cell p

  pub Keeps-refl : (limit : ℕ) (h : Heap V) → Keeps limit h h
  Keeps-refl limit h = record { grown = omega arith; same = λ p l. refl }

  pub Keeps-trans :
      (limit : ℕ) {h h' h'' : Heap V} → Keeps limit h h' → Keeps limit h' h'' → Keeps limit h h''
  Keeps-trans limit a b = record {
    grown = omega (arith, a.grown, b.grown);
    same = λ p l. b.same p l ∙ a.same p l;
  }

  pub Keeps-below :
      (limit low : ℕ) {h h' : Heap V} → low ≤ limit → Keeps limit h h' → Keeps low h h'
  Keeps-below limit low l a = record {
    grown = a.grown;
    same = λ p k. a.same p (omega (arith, l, k));
  }

  pub entries-Keeps :
      (limit : ℕ) {h h' : Heap V} (p : Option ℕ)
      → IsKnown limit p
      → Keeps limit h h'
      → entries h' p ≡ entries h p
  entries-Keeps limit none k a = refl
  entries-Keeps limit (some p) k a = a.same p k

  pub allocate-Keeps : (m : List (Text × V)) (h : Heap V) → Keeps h.next h (allocate m h).1
  unfolding allocate
  allocate-Keeps m h = record { grown = omega arith; same = λ p l. ground arith }

  pub write-Keeps :
      (limit p : ℕ) (m : List (Text × V)) (h : Heap V) → limit ≤ p → Keeps limit h (write p m h)
  unfolding write
  write-Keeps limit p m h l = record { grown = omega arith; same = λ q k. ground arith }

  -- The clone has the entries of the map, at a new address, and the maps that there were are unchanged.
  pub clone-Keeps : (p : Option ℕ) (h : Heap V) → Keeps h.next h (clone p h).1
  unfolding clone
  clone-Keeps none h = Keeps-refl h.next h
  clone-Keeps (some p) h = allocate-Keeps (h.cell p) h

  pub entries-clone :
      (p : Option ℕ) (h : Heap V) → entries (clone p h).1 (clone p h).0 ≡ entries h p
  unfolding clone
  entries-clone none h = refl
  entries-clone (some p) h = ground arith

  pub clone-IsNew : (p : Option ℕ) (h : Heap V) → IsNew h.next (clone p h).0
  unfolding clone
  clone-IsNew none h = tt
  clone-IsNew (some p) h = omega arith
