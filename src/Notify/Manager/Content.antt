-- ===== src/Notify/Manager/Content.antt =====
-- notify/manager.go, notify/dispatcher.go: which notification a worker delivers under a queue ID.
use notifykit.Base.{
  ℕ, ◌≡◌, refl, ◌∙◌, sym, ◌⊎◌, subst, ◌==◌, Bool-cases, inl, inr, Option, none, some, List, [], ◌∷◌,
  ◌++◌, All, All-append, All-split, arith,
}
use notifykit.Notify.Error.{Error}
use notifykit.Notify.Store.{put, get, delete}
use notifykit.Notify.Manager.{
  Manager, Act, Completion, runs, admit, stop, start, begin_dispatch, discard, send_slot,
  close_done,
}
use notifykit.Notify.Manager
use notifykit.Notify.Manager.Steps.{System, Step, Reach, begun}

module _ {Notification : Type 0} where
  -- The notification, if its Enqueue call returned no error.
  abbrev pub admitted_if : ℕ → Notification → Option Error → List (ℕ × Notification)
  admitted_if id n none = (id, n) ∷ []
  admitted_if id n (some e) = []

  module _ {κ} (P : ℕ × Notification → Type κ) where
    put-All :
        (id : ℕ) (n : Notification) (items : List (ℕ × Notification))
        → P (id, n)
        → All P items
        → All P (put id n items)
    unfolding put
    put-All id n [] p h = (p, tt)
    put-All id n ((j, m) ∷ items) p h = elim (Bool-cases (j == id)) [
      | inl hit ↦ rw hit (p, h.1)
      | inr miss ↦ rw miss (h.0, put-All id n items p h.1)
    ]

    delete-All : (id : ℕ) (items : List (ℕ × Notification)) → All P items → All P (delete id items)
    unfolding delete
    delete-All id [] h = tt
    delete-All id ((j, m) ∷ items) h = elim (Bool-cases (j == id)) [
      | inl hit ↦ rw hit (delete-All id items h.1)
      | inr miss ↦ rw miss (h.0, delete-All id items h.1)
    ]

    get-All :
        (id : ℕ) (n : Notification) (items : List (ℕ × Notification))
        → get id items ≡ some n
        → All P items
        → P (id, n)
    unfolding get
    get-All id n [] e h = cc
    get-All id n ((j, m) ∷ items) e h = elim (Bool-cases (j == id)) [
      | inl hit ↦
          let same : m ≡ n = ground arith in
          let id_ : j ≡ id = ground arith in
          subst (λ (q : ℕ × Notification). P q) (λ i. (id_ i, same i)) h.0
      | inr miss ↦ get-All id n items (ground arith) h.1
    ]

    -- The property of every notification that is queued or is being delivered, with its ID.
    pub record Holds (s : System Notification) : Type κ where
      pub on_store : All P s.manager.store
      pub on_delivering : All P s.delivering

    -- A refused Enqueue call leaves the store as it is.
    admit-All :
        (capacity id : ℕ) (n : Notification) (err : Option Error) (m m' : Manager Notification)
        (e : Option Error)
        → admit capacity id n err m ≡ runs (m', e)
        → All P (admitted_if id n e)
        → All P m.store
        → All P m'.store
    unfolding Manager.admit
    admit-All capacity id n err m m' (some e) h p q =
        let kept : m'.store ≡ m.store = ground arith in subst (All P) (sym kept) q
    admit-All capacity id n err m m' none h p q =
        let kept : m'.store ≡ put id n m.store = ground arith in
        subst (All P) (sym kept) (put-All id n m.store p.0 q)

    begin-All :
        (id : ℕ) (m m' : Manager Notification) (found : Option Notification)
        → begin_dispatch id m ≡ runs (m', found)
        → All P m.store
        → All P m'.store × ((n : Notification) → found ≡ some n → P (id, n))
    unfolding Manager.begin_dispatch
    begin-All id m m' found h q =
        let got : found ≡ get id m.store = ground arith in
        let kept : (m'.store ≡ m.store) ⊎ (m'.store ≡ delete id m.store) = ground arith in
        (
          elim kept [
            | inl old ↦ subst (All P) (sym old) q
            | inr new ↦ subst (All P) (sym new) (delete-All id m.store q)
          ],
          λ n e. get-All id n m.store (sym got ∙ e) q,
        )

    discard-All :
        (id : ℕ) (m m' : Manager Notification) (cs : List Completion)
        → discard id m ≡ runs (m', cs)
        → All P m.store
        → All P m'.store
    unfolding Manager.discard
    discard-All id m m' cs h q =
        let left : m'.store ≡ delete id m.store = ground arith in
        subst (All P) (sym left) (delete-All id m.store q)

  module _ (capacity workers : ℕ) where
    -- The calls of Enqueue that returned an ID in a step, and in all steps, with the notification.
    abbrev pub admits :
        {s t : System Notification} → Step capacity workers s t → List (ℕ × Notification)
    admits (Step.admit xs ys id n err m e a h) = admitted_if id n e
    admits _ = []

    abbrev pub admitted :
        {s : System Notification} → Reach capacity workers s → List (ℕ × Notification)
    admitted Reach.here = []
    admitted (Reach.next r x) = admits x ++ admitted r

    begun-Holds {κ} :
        (P : ℕ × Notification → Type κ) (s : System Notification) (id : ℕ) (left : List ℕ)
        (m : Manager Notification) (found : Option Notification)
        → All P m.store
        → ((n : Notification) → found ≡ some n → P (id, n))
        → Holds P s
        → Holds P (begun id left m found s)
    begun-Holds P s id left m none q p h = record { on_store = q; on_delivering = h.on_delivering }
    begun-Holds P s id left m (some n) q p h = record {
      on_store = q;
      on_delivering = (p n refl, h.on_delivering);
    }

    -- The element taken out of a list, and the others.
    taken {κ} :
        (P : ℕ × Notification → Type κ) (l xs ys : List (ℕ × Notification)) (x : ℕ × Notification)
        → l ≡ xs ++ (x ∷ ys)
        → All P l
        → P x × All P (xs ++ ys)
    taken P l xs ys x e h =
        let (before, (here, after)) = All-split P xs (x ∷ ys) (subst (All P) e h) in
        (here, All-append P xs ys before after)

    same-Holds {κ} :
        (P : ℕ × Notification → Type κ) {s t : System Notification}
        → s.manager.store ≡ t.manager.store
        → s.delivering ≡ t.delivering
        → Holds P s
        → Holds P t
    same-Holds P q d h = record {
      on_store = subst (All P) q h.on_store;
      on_delivering = subst (All P) d h.on_delivering;
    }

    Step-Holds {κ} :
        (P : ℕ × Notification → Type κ) {s t : System Notification} (x : Step capacity workers s t)
        → All P (admits x)
        → Holds P s
        → Holds P t
    unfolding send_slot Manager.start Manager.stop close_done
    Step-Holds P {s} (Step.reserve id n m f x) p h = same-Holds P (ground arith) refl h
    Step-Holds P {s} (Step.admit xs ys id n err m e a x) p h = record {
      on_store = admit-All P capacity id n err s.manager m e x p h.on_store;
      on_delivering = h.on_delivering;
    }
    Step-Holds P {s} (Step.start m x) p h = same-Holds P (ground arith) refl h
    Step-Holds P (Step.cancel c) p h = same-Holds P refl refl h
    Step-Holds P {s} (Step.stop drain m sp x) p h = same-Holds P (ground arith) refl h
    Step-Holds P (Step.receive k id rest i x) p h = same-Holds P refl refl h
    Step-Holds P {s} (Step.begin xs ys id m found f x) p h =
        let (left, named) = begin-All P id s.manager m found x h.on_store in
        begun-Holds P s id (xs ++ ys) m found left named h
    Step-Holds P {s} (Step.complete xs ys id n e d) p h = record {
      on_store = h.on_store;
      on_delivering = (taken P s.delivering xs ys (id, n) d h.on_delivering).1;
    }
    Step-Holds P (Step.exit k i x) p h = same-Holds P refl refl h
    Step-Holds P {s} (Step.pass k m sp w i f d x) p h = same-Holds P (ground arith) refl h
    Step-Holds P {s} (Step.discard k id rest m cs d b x) p h = record {
      on_store = discard-All P id (record (s.manager) { mailbox = rest }) m cs x h.on_store;
      on_delivering = h.on_delivering;
    }
    Step-Holds P {s} (Step.finish k m d e c x) p h = same-Holds P (ground arith) refl h

    -- What is queued or is being delivered is the notification of the Enqueue call that returned that
    -- ID: it has each property that all of those calls have.
    pub Reach-Holds {κ} :
        (P : ℕ × Notification → Type κ) {s : System Notification} (r : Reach capacity workers s)
        → All P (admitted r)
        → Holds P s
    Reach-Holds P Reach.here p = record { on_store = tt; on_delivering = tt }
    Reach-Holds P (Reach.next r x) p =
        let (now, before) = All-split P (admits x) (admitted r) p in
        Step-Holds P x now (Reach-Holds P r before)
