-- ===== src/Targets/Sharing.antt =====
-- targets/email/email.go and targets/webhook/webhook.go: NewFromTarget and WithHeaders, which are the
-- same in both, with header maps as shared objects. The map of a target is its address beside it.
pub mod Refines
use notifykit.Base.{
  ℕ, ◌≤◌, ◌<◌, ◌≡◌, refl, sym, ap, ◌∙◌, Bool-cases, true, false, inl, inr, Option, none, some, List,
  [], ◌∷◌, arith, is_empty, if◌then◌else◌, map,
}
use notifykit.Text.{Text}
use notifykit.Text.Maps.{copy_into}
use notifykit.Heap.{
  Heap, entries, allocate, write, clone, Keeps, Keeps-refl, Keeps-trans, Keeps-below, clone-Keeps,
  entries-clone, clone-IsNew, entries-Keeps, allocate-Keeps, write-Keeps, IsKnown, IsNew,
}

-- The field Headers of a kind of target, as a value.
pub record HasHeaders (Target : Type 0) : Type 0 where
  pub headers : Target → List (Text × Text)
  pub with_map : List (Text × Text) → Target → Target
  pub headers_with : (m : List (Text × Text)) (t : Target) → headers (with_map m t) ≡ m
  pub with_with : (m n : List (Text × Text)) (t : Target) → with_map m (with_map n t) ≡ with_map m t

-- The options: WithHeaders of the map at an address, and those that do not look at the headers.
pub data SharedOption (Target : Type 0) : Type 0 where
  copies : Option ℕ → SharedOption Target
  sets : (Target → Target) → SharedOption Target

-- A target, the address of its header map, and the maps.
abbrev pub Shared : Type 0 → Type 0
Shared Target = Target × Option ℕ × Heap Text

-- `if target.Headers == nil { target.Headers = map[string]string{} }`
unfoldable pub ensured : Option ℕ → Heap Text → ℕ × Heap Text
ensured none h = allocate [] h
ensured (some p) h = (p, h)

module _ {Target : Type 0} where
  -- The function that WithHeaders returns, on the target.
  unfoldable pub copy_headers : Option ℕ → Shared Target → Shared Target
  unfolding ensured
  copy_headers q (t, p, h) =
      if is_empty (entries h q)
      then (t, p, h)
      else (let (r, h') = ensured p h in
          (t, some r, write r (copy_into (h'.cell r) (entries h' q)) h'))

  unfoldable pub apply_shared : SharedOption Target → Shared Target → Shared Target
  apply_shared (SharedOption.copies q) s = copy_headers q s
  apply_shared (SharedOption.sets f) (t, p, h) = (f t, p, h)

  -- The loop over the options, in which a nil option is passed over.
  unfoldable pub apply_shared_all :
      List (Option (SharedOption Target)) → Shared Target → Shared Target
  apply_shared_all [] s = s
  apply_shared_all (none ∷ opts) s = apply_shared_all opts s
  apply_shared_all (some opt ∷ opts) s = apply_shared_all opts (apply_shared opt s)

  -- NewFromTarget, with the function that fills in the defaults.
  unfoldable pub new_from_shared :
      (Target → Target) → Shared Target → List (Option (SharedOption Target)) → Shared Target
  new_from_shared defaults (t, p, h) opts =
      let (p', h') = clone p h in
      let (t', q, h'') = apply_shared_all opts (t, p', h') in (defaults t', q, h'')
