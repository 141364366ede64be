-- ===== src/Notify/Delivery/Shared/Isolation.antt =====
-- notify/delivery.go: a target that writes into its custom data does not disturb the others.
use notifykit.Base.{
  ℕ, suc, ◌≤◌, ◌<◌, ◌≡◌, ◌≢◌, refl, ap, ◌∙◌, Option, none, some, List, [], ◌∷◌, ◌++◌, All, arith,
}
use notifykit.Text.{Text}
use notifykit.Heap.{
  Heap, clone, allocate, allocate-Keeps, Keeps, Keeps-refl, Keeps-trans, Keeps-below, IsKnown,
  IsNew, IsNew-below,
}
use notifykit.Notify.Error.{Error}
use notifykit.Notify.Retry.{Runtime}
use notifykit.Notify.Retry.Invariant.{with_retry-keeps}
use notifykit.Notify.Receivers.{Receiver}
use notifykit.Notify.Delivery.{Payload, join}
use notifykit.Notify.Delivery.Shared.{
  SharedTargets, with_heap, deliver_with, shared_failure, deliver_all, dispatch_shared,
}

-- The entries of a map, or nil.
abbrev pub content : {V : Type 0} → Heap V → Option ℕ → Option (List (Text × V))
content h none = none
content h (some p) = some (h.cell p)

-- A new map with these entries, or nil.
abbrev pub hand : {V : Type 0} → Option (List (Text × V)) → Heap V → Option ℕ × Heap V
hand none h = (none, h)
hand (some m) h = let (p, h') = allocate m h in (some p, h')

clone-hand : {V : Type 0} (p : Option ℕ) (h : Heap V) → clone p h ≡ hand (content h p) h
unfolding clone
clone-hand none h = refl
clone-hand (some p) h = refl

content-Keeps :
    {V : Type 0} (limit : ℕ) {h h' : Heap V} (p : Option ℕ)
    → IsKnown limit p
    → Keeps limit h h'
    → content h' p ≡ content h p
content-Keeps limit none k a = refl
content-Keeps limit (some p) k a = ap some (a.same p k)

hand-Keeps :
    {V : Type 0} (m : Option (List (Text × V))) (h : Heap V)
    → Keeps h.next h (hand m h).1 × IsNew h.next (hand m h).0
unfolding allocate
hand-Keeps none h = (Keeps-refl h.next h, tt)
hand-Keeps (some m) h = (allocate-Keeps m h, omega arith)

module _ {Target Notification Value World : Type 0} (rt : Runtime World)
    (ops : SharedTargets Target Notification Value World) where
  -- A target writes into no map that there was before the call, but the one of its payload.
  pub record IsConfined : Type 0 where
    pub grows :
        (t : Target) (payload : Payload Notification Value) (p : Option ℕ) (w : World)
        (h : Heap Value)
        → h.next ≤ (ops.send t payload p (w, h)).2.1.next
    pub leaves :
        (t : Target) (payload : Payload Notification Value) (p : Option ℕ) (w : World)
        (h : Heap Value) (q : ℕ)
        → q < h.next
        → p ≢ some q
        → (ops.send t payload p (w, h)).2.1.cell q ≡ h.cell q

  not_own : (limit q : ℕ) (p : Option ℕ) → IsNew limit p → q < limit → p ≢ some q
  not_own limit q none n l e = cc
  not_own limit q (some p) n l e =
      let same : p ≡ q = ground arith in absurd (omega (arith, n, l, same))

  module _ (confined : IsConfined) where
    send-Keeps :
        (t : Target) (payload : Payload Notification Value) (p : Option ℕ) (limit : ℕ) (w : World)
        (h : Heap Value)
        → limit ≤ h.next
        → IsNew limit p
        → Keeps limit h (ops.send t payload p (w, h)).2.1
    send-Keeps t payload p limit w h l n = record {
      grown = confined.grows t payload p w h;
      same = λ q k. confined.leaves t payload p w h q (omega (arith, l, k)) (not_own limit q p n k);
    }

    deliver_with-Keeps :
        (receiver : Receiver Target Value) (payload : Payload Notification Value) (t : Target)
        (limit : ℕ) (w : World) (p : Option ℕ) (h : Heap Value)
        → limit ≤ h.next
        → IsNew limit p
        → Keeps limit h (deliver_with rt ops receiver payload t w (p, h)).world.1
    unfolding deliver_with
    deliver_with-Keeps receiver payload t limit w p h l n =
        with_retry-keeps (with_heap rt) receiver.retry
          (ops.send t (record payload { receiver = receiver.name }) p) (λ m. Keeps limit h m.1)
          (λ d m k. k)
          (λ m k. Keeps-trans limit k (
            send-Keeps t (record payload { receiver = receiver.name }) p limit m.0 m.1
              (omega (arith, l, k.grown)) n))
          (w, h) (Keeps-refl limit h)

    module _ (receiver : Receiver Target Value) (payload : Payload Notification Value)
        (p : Option ℕ) (h : Heap Value) (known : IsKnown h.next p) where
      -- A loop in which each target gets a clone, in a later heap, is the loop in which each gets a new
      -- map with the entries that the receiver's map had at first; and no map changes that there was.
      deliver_all-isolated :
          (errs : List Error) (index : ℕ) (ts : List (Option Target)) (w : World) (h' : Heap Value)
          → All (λ t. t ≢ none) ts
          → Keeps h.next h h'
          → (errs' : List Error) × (m : World × Heap Value) × (deliver_all rt ops
                (clone p)
                receiver
                payload
                errs
                index
                ts
                (w, h')
              ≡ some (errs', m))
            × (deliver_all rt ops (hand (content h p)) receiver payload errs index ts (w, h')
                ≡ some (errs', m))
            × Keeps h.next h m.1
      unfolding deliver_all
      deliver_all-isolated errs index [] w h' a k = (errs, (w, h'), refl, refl, k)
      deliver_all-isolated errs index (none ∷ ts) w h' a k = absurd (a.0 refl)
      deliver_all-isolated errs index (some t ∷ ts) w h' a k =
          let given : clone p h' ≡ hand (content h p) h' =
            clone-hand p h' ∙ ap (λ c. hand c h') (content-Keeps h.next p known k) in
          let (kept, new) = hand-Keeps (content h p) h' in
          let o = deliver_with rt ops receiver payload t w (hand (content h p) h') in
          let later =
            Keeps-trans h.next (Keeps-trans h.next k (Keeps-below h'.next h.next k.grown kept)) (
              deliver_with-Keeps receiver payload t h.next w (hand (content h p) h').0
                (hand (content h p) h').1 (omega (arith, k.grown, kept.grown))
                (IsNew-below h'.next h.next (hand (content h p) h').0 k.grown new)) in
          let (errs', m, x, y, z) =
            deliver_all-isolated (errs ++ shared_failure rt ops receiver index t o) (suc index) ts
              o.world.0 o.world.1 a.1 later in
          (errs', m, rw given x, y, z)

    -- Whatever the targets write into their custom data, each target of a receiver gets the entries
    -- that the receiver's map had at first, and no map that there was before is changed. The targets
    -- write into no older map but the one of their payload.
    pub dispatch_shared-isolated :
        (receiver : Receiver Target Value) (payload : Payload Notification Value) (p : Option ℕ)
        (w : World) (h : Heap Value)
        → IsKnown h.next p
        → All (λ t. t ≢ none) receiver.targets
        → (errs : List Error) × (m : World × Heap Value) × (dispatch_shared rt ops receiver p
              payload
              (w, h)
            ≡ some (join errs, m))
          × (deliver_all rt ops (hand (content h p)) receiver payload [] 0 receiver.targets (w, h)
              ≡ some (errs, m))
          × Keeps h.next h m.1
    unfolding dispatch_shared
    dispatch_shared-isolated receiver payload p w h known a =
        let (errs, m, x, y, z) =
          deliver_all-isolated receiver payload p h known [] 0 receiver.targets w h a
            (Keeps-refl h.next h) in
        (errs, m, rw (x, dispatch_shared) refl, y, z)
