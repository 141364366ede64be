-- ===== src/Notify/Manager/Safety.antt =====
-- What holds of every run of the manager of notify/manager.go with its workers.
use notifykit.Base.{
  ℕ, ◌+◌, ◌-◌, ◌≤◌, ◌<◌, ◌≡◌, ◌≢◌, refl, Bool, true, Option, none, some, List, [], ◌∷◌, ◌++◌, arith,
  ap, length,
}
use notifykit.Notify.Error.{Error, manager_stopped}
use notifykit.Notify.Store.{count, ids, get, delete, get-found}
use notifykit.Notify.Manager.{
  Manager, Act, Completion, runs, blocks, panics, admit, stop, begin_dispatch, discard, send_slot,
  close_done,
}
use notifykit.Notify.Manager
use notifykit.Notify.Manager.Steps.{System, Step, Reach, completed_ids}
use notifykit.Notify.Manager.Control.{Control, live, init-Control, Step-Control, length-remove}
use notifykit.Notify.Manager.Ledger.{LedgerAt, init-LedgerAt, Step-LedgerAt, fetched-found}

-- The section of code neither blocks nor panics.
abbrev pub Runs {ℓ} : {A : Type ℓ} → Act A → Type ℓ
Runs x = (x ≢ blocks) × (x ≢ panics)

pub Runs-runs {ℓ} : {A : Type ℓ} (x : Act A) → Runs x → (a : A) × (x ≡ runs a)
Runs-runs (runs a) h = (a, refl)
Runs-runs blocks h = absurd (h.0 refl)
Runs-runs panics h = absurd (h.1 refl)

nil_of_length {ℓ} : {A : Type ℓ} (l : List A) → length l ≡ 0 → l ≡ []
nil_of_length [] h = refl
nil_of_length (x ∷ l) h = absurd (omega arith)

module _ {Notification : Type 0} (capacity workers : ℕ) where
  pub Reach-LedgerAt : {s : System Notification} → Reach capacity workers s → (a : ℕ) → LedgerAt a s
  Reach-LedgerAt Reach.here a = init-LedgerAt a
  Reach-LedgerAt (Reach.next r st) a = Step-LedgerAt capacity workers a st (Reach-LedgerAt r)

  pub Reach-Control : {s : System Notification} → Reach capacity workers s → Control capacity s
  Reach-Control Reach.here = init-Control capacity
  Reach-Control (Reach.next r st) =
      Step-Control capacity workers st (Reach-LedgerAt r) (Reach-Control r)

  -- At any moment the queued notifications and the Enqueue calls that hold a slot are together at
  -- most the capacity.
  queue_bounded :
      {s : System Notification}
      → Reach capacity workers s
      → length s.manager.mailbox + length s.admitting + length s.fetched ≤ capacity
  queue_bounded r = omega (arith, Reach-Control r)

  -- An Enqueue call that holds a slot always gets through the locked section: it does not send on
  -- the closed mailbox, and neither the send nor the receive of a slot blocks.
  pub admit-Runs :
      {s : System Notification} (r : Reach capacity workers s) (xs ys : List (ℕ × Notification))
      (id : ℕ) (n : Notification) (err : Option Error)
      → s.admitting ≡ xs ++ ((id, n) ∷ ys)
      → Runs (admit capacity id n err s.manager)
  unfolding Manager.admit
  admit-Runs {s} r xs ys id n err h =
      let c = Reach-Control r in ground (arith, c, length-remove xs ys (id, n) h)

  -- stop never closes a channel twice, whether it drains or cancels.
  pub stop-Runs :
      {s : System Notification}
      → Reach capacity workers s
      → (drain : Bool) → Runs (stop drain s.manager)
  unfolding Manager.stop
  stop-Runs {s} r drain = let c = Reach-Control r in ground (arith, c)

  -- A worker that received a queue ID finds its notification, and releases its slot at once.
  pub begin_dispatch-found :
      {s : System Notification} (r : Reach capacity workers s) (xs ys : List ℕ) (id : ℕ)
      → s.fetched ≡ xs ++ (id ∷ ys)
      → Runs (begin_dispatch id s.manager) × (get id s.manager.store ≢ none)
  unfolding Manager.begin_dispatch
  begin_dispatch-found {s} r xs ys id h =
      let c = Reach-Control r in
      let found = fetched-found s xs ys id (Reach-LedgerAt r id) h in
      (ground (arith, c, length-remove xs ys id h), found)

  -- While finish drains, each ID of the mailbox has its notification and its slot, so that it is
  -- reported once, with ErrManagerStopped.
  pub discard-reports :
      {s : System Notification} (r : Reach capacity workers s) (id : ℕ) (rest : List ℕ)
      → s.manager.mailbox ≡ id ∷ rest
      → (m : Manager Notification) × (discard id (record (s.manager) { mailbox = rest })
          ≡ runs (m, (id, some manager_stopped) ∷ []))
  unfolding Manager.discard count
  discard-reports {s} r id rest h =
      let c = Reach-Control r in
      let l = Reach-LedgerAt r id in
      let (n, found) = get-found id s.manager.store (ground (arith, l, ap (count id) h)) in
      (
        record (s.manager) {
          mailbox = rest;
          store = delete id s.manager.store;
          slots = s.manager.slots - 1;
        },
        ground (arith, c, found, h),
      )

  -- finish closes the channel done at most once.
  pub close_done-Runs :
      {s : System Notification}
      → Reach capacity workers s
      → 0 < s.draining
      → Runs (close_done s.manager)
  unfolding close_done
  close_done-Runs r h = let c = Reach-Control r in ground (arith, c)

  -- No queue ID is completed twice, and none that Enqueue did not return.
  completed_once :
      {s : System Notification}
      → Reach capacity workers s
      → (a : ℕ)
      → (count a (completed_ids s.completed) ≤ count a s.accepted) × (count a s.accepted ≤ 1)
  completed_once r a = let l = Reach-LedgerAt r a in omega (arith, l)

  -- When the channel done is closed, no worker is left, the mailbox and the store are empty, and the
  -- completed IDs are just the accepted ones, each once.
  pub done_complete :
      {s : System Notification}
      → Reach capacity workers s
      → s.manager.done_closed ≡ true
      → (live s ≡ 0)
        × (s.manager.mailbox ≡ [])
        × ((a : ℕ)
            → (count a (ids s.manager.store) ≡ 0)
              × (count a (completed_ids s.completed) ≡ count a s.accepted))
  unfolding count
  done_complete {s} r h =
      let c = Reach-Control r in
      let idle : live s ≡ 0 = ground (arith, c) in
      let empty : s.manager.mailbox ≡ [] = ground (arith, c) in
      let f : s.fetched ≡ [] = nil_of_length s.fetched (omega arith) in
      let d : s.delivering ≡ [] = nil_of_length s.delivering (omega arith) in
      (
        idle,
        empty,
        λ a.
            let l = Reach-LedgerAt r a in
            ground (arith, l, ap (count a) f, ap (λ t. count a (ids t)) d, ap (count a) empty),
      )

  -- Once admission is stopped it stays stopped, and no further notification is accepted.
  pub stopped_for_good :
      {s t : System Notification}
      → Step capacity workers s t
      → s.manager.stopped ≡ true
      → (t.manager.stopped ≡ true) × (t.accepted ≡ s.accepted)
  unfolding Manager.admit Manager.stop Manager.start Manager.begin_dispatch Manager.discard
      send_slot close_done
  stopped_for_good (Step.reserve id n m f e) h = ground arith
  stopped_for_good (Step.admit xs ys id n err m e k a) h = ground arith
  stopped_for_good (Step.start m k) h = ground arith
  stopped_for_good (Step.cancel k) h = ground arith
  stopped_for_good (Step.stop drain m sp k) h = ground arith
  stopped_for_good (Step.receive k id rest i e) h = ground arith
  stopped_for_good (Step.begin xs ys id m none k b) h = ground arith
  stopped_for_good (Step.begin xs ys id m (some n) k b) h = ground arith
  stopped_for_good (Step.complete xs ys id n e k) h = ground arith
  stopped_for_good (Step.exit k i e) h = ground arith
  stopped_for_good (Step.pass k m sp w i f d e) h = ground arith
  stopped_for_good (Step.discard k id rest m cs d e x) h = ground arith
  stopped_for_good (Step.finish k m d e cl x) h = ground arith
