-- ===== src/Targets/Sharing/Refines.antt =====
-- targets/email/email.go and targets/webhook/webhook.go: NewFromTarget leaves the maps of its argument
-- and of its options as they are.
use notifykit.Base.{
  ℕ, ◌≤◌, ◌≡◌, refl, sym, ap, ◌∙◌, Bool-cases, true, inl, inr, Option, none, some, List, [], ◌∷◌,
  arith, is_empty, All,
}
use notifykit.Text.{Text}
use notifykit.Text.Maps.{copy_into}
use notifykit.Heap.{
  Heap, entries, allocate, write, clone, Keeps, Keeps-refl, Keeps-trans, Keeps-below, clone-Keeps,
  entries-clone, clone-IsNew, entries-Keeps, allocate-Keeps, write-Keeps, IsKnown, IsNew,
}
use notifykit.Targets.Sharing.{
  HasHeaders, SharedOption, Shared, ensured, copy_headers, apply_shared, apply_shared_all,
  new_from_shared,
}

copy_nothing : (m l : List (Text × Text)) → is_empty l ≡ true → copy_into m l ≡ m
unfolding copy_into
copy_nothing m [] h = refl
copy_nothing m (x ∷ l) h = cc

module _ {Target : Type 0} (k : HasHeaders Target) where
  -- The target with its headers as a value.
  abbrev pub view : Shared Target → Target
  view (t, p, h) = k.with_map (entries h p) t

  -- WithHeaders on a target with its headers as a value.
  abbrev pub copying : List (Text × Text) → Target → Target
  copying m t = k.with_map (copy_into (k.headers t) m) t

  -- An option on such a target, with the maps of the heap.
  abbrev pub option_value : Heap Text → SharedOption Target → Target → Target
  option_value h (SharedOption.copies q) = copying (entries h q)
  option_value h (SharedOption.sets f) = f

  abbrev pub option_values : Heap Text → List (Option (SharedOption Target)) → Target → Target
  option_values h [] t = t
  option_values h (none ∷ opts) t = option_values h opts t
  option_values h (some opt ∷ opts) t = option_values h opts (option_value h opt t)

  -- A function that does not look at the headers.
  abbrev pub IsApart : (Target → Target) → Type 0
  IsApart f = (m : List (Text × Text)) (t : Target) → k.with_map m (f t) ≡ f (k.with_map m t)

  -- The map of an option is in use, or the option does not look at the headers.
  abbrev pub IsAllowed : ℕ → Option (SharedOption Target) → Type 0
  IsAllowed limit none = Unit
  IsAllowed limit (some (SharedOption.copies q)) = IsKnown limit q
  IsAllowed limit (some (SharedOption.sets f)) = IsApart f

  module _ (h : Heap Text) where
    -- The maps that there were are unchanged, and the target's is none of them.
    record Fresh (s : Shared Target) : Type 0 where
      keeps : Keeps h.next h s.2
      is_new : IsNew h.next s.1

    write-entries :
        (r : ℕ) (m : List (Text × Text)) (g : Heap Text) → entries (write r m g) (some r) ≡ m
    unfolding write
    write-entries r m g = ground arith

    copying-view :
        (t : Target) (m n : List (Text × Text))
        → copying n (k.with_map m t) ≡ k.with_map (copy_into m n) t
    copying-view t m n =
        k.with_with _ m t ∙ ap (λ l. k.with_map (copy_into l n) t) (k.headers_with m t)

    ensured_lem :
        (limit : ℕ) (p : Option ℕ) (g : Heap Text)
        → limit ≤ g.next
        → IsNew limit p
        → (limit ≤ (ensured p g).0)
          × Keeps limit g (ensured p g).1
          × ((ensured p g).1.cell (ensured p g).0 ≡ entries g p)
    unfolding ensured allocate
    ensured_lem limit none g l n =
        (l, Keeps-below g.next limit l (allocate-Keeps [] g), ground arith)
    ensured_lem limit (some p) g l n = (n, Keeps-refl limit g, refl)

    copy_headers-Fresh :
        (q : Option ℕ) (t : Target) (p : Option ℕ) (g : Heap Text)
        → IsKnown h.next q
        → Fresh (t, p, g)
        → Fresh (copy_headers q (t, p, g))
          × (view (copy_headers q (t, p, g)) ≡ copying (entries h q) (view (t, p, g)))
    unfolding copy_headers ensured
    copy_headers-Fresh q t p g known f =
        let same = entries-Keeps h.next q known f.keeps in
        elim (Bool-cases (is_empty (entries g q))) [
          | inl nothing ↦
              let left =
                ap (λ l. k.with_map l t)
                  (copy_nothing (entries g p) (entries h q) (ap is_empty (sym same) ∙ nothing)) in
              rw (nothing, copy_headers)
                (f, sym (copying-view t (entries g p) (entries h q) ∙ left))
          | inr something ↦
              let (new, kept, old) = ensured_lem h.next p g f.keeps.grown f.is_new in
              let (r, g') = ensured p g in
              let later = Keeps-trans h.next f.keeps kept in
              let copied = copy_into (g'.cell r) (entries g' q) in
              let merged : copied ≡ copy_into (entries g p) (entries h q) =
                λ i. copy_into (old i) (entries-Keeps h.next q known later i) in
              rw (something, copy_headers)
                (
                  record {
                    keeps = Keeps-trans h.next later (write-Keeps h.next r copied g' new);
                    is_new = new;
                  },
                  ap (λ l. k.with_map l t) (write-entries r copied g' ∙ merged)
                      ∙ sym (copying-view t (entries g p) (entries h q)),
                )
        ]

    apply_shared_all-Fresh :
        (opts : List (Option (SharedOption Target))) (s : Shared Target)
        → All (IsAllowed h.next) opts
        → Fresh s
        → Fresh (apply_shared_all opts s)
          × (view (apply_shared_all opts s) ≡ option_values h opts (view s))
    unfolding apply_shared_all apply_shared
    apply_shared_all-Fresh [] s a f = (f, refl)
    apply_shared_all-Fresh (none ∷ opts) s a f = apply_shared_all-Fresh opts s a.1 f
    apply_shared_all-Fresh (some (SharedOption.copies q) ∷ opts) (t, p, g) a f =
        let (f', x) = copy_headers-Fresh q t p g a.0 f in
        let (f'', y) = apply_shared_all-Fresh opts (copy_headers q (t, p, g)) a.1 f' in
        (f'', y ∙ ap (option_values h opts) x)
    apply_shared_all-Fresh (some (SharedOption.sets fn) ∷ opts) (t, p, g) a f =
        let (f'', y) =
          apply_shared_all-Fresh opts (fn t, p, g) a.1
            (record { keeps = f.keeps; is_new = f.is_new }) in
        (f'', y ∙ ap (option_values h opts) (a.0 (entries g p) t))

    -- NewFromTarget changes none of the maps that there were, and the header map of the new target is
    -- none of them; and the new target is the one that NewFromTarget gives where maps are values.
    pub new_from_shared-Refines :
        (defaults : Target → Target) (t : Target) (p : Option ℕ)
        (opts : List (Option (SharedOption Target)))
        → IsApart defaults
        → All (IsAllowed h.next) opts
        → let s = new_from_shared defaults (t, p, h) opts in
          Keeps h.next h s.2
          × IsNew h.next s.1
          × (view s ≡ defaults (option_values h opts (view (t, p, h))))
    unfolding new_from_shared
    new_from_shared-Refines defaults t p opts apart allowed =
        let (p', g) = clone p h in
        let start : Fresh (t, p', g) = record {
          keeps = clone-Keeps p h;
          is_new = clone-IsNew p h;
        } in
        let (f, v) = apply_shared_all-Fresh opts (t, p', g) allowed start in
        let (t', q, g') = apply_shared_all opts (t, p', g) in
        (
          f.keeps,
          f.is_new,
          apart (entries g' q) t'
              ∙ ap (λ x. defaults x)
                  (v ∙ ap (λ l. option_values h opts (k.with_map l t)) (entries-clone p h)),
        )
