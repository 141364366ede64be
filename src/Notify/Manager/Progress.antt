-- ===== src/Notify/Manager/Progress.antt =====
-- A stopped manager of notify/manager.go can always finish: its goroutines are never stuck.
use notifykit.Base.{
  ℕ, zero, suc, ◌+◌, ◌*◌, ◌<◌, ◌≡◌, refl, Bool, true, false, Option, none, some, List, [], ◌∷◌,
  arith, ap, length, ◌⊎◌, inl, inr, Bool-cases,
}
use notifykit.Notify.Error.{manager_stopped}
use notifykit.Notify.Manager.{
  Manager, Act, Completion, runs, admit, stop, begin_dispatch, discard, send_slot, close_done,
}
use notifykit.Notify.Manager
use notifykit.Notify.Manager.Steps.{System, Step, Reach, bit, begun}
use notifykit.Notify.Manager.Safety.{
  Runs-runs, Reach-Control, stop-Runs, begin_dispatch-found, discard-reports, close_done-Runs,
  stopped_for_good,
}

List-cases {ℓ} : {A : Type ℓ} (l : List A) → (l ≡ []) ⊎ ((x : A) × (xs : List A) × (l ≡ x ∷ xs))
List-cases [] = inl refl
List-cases (x ∷ xs) = inr (x, xs, refl)

ℕ-cases : (n : ℕ) → (n ≡ 0) ⊎ ((k : ℕ) × (n ≡ suc k))
ℕ-cases zero = inl refl
ℕ-cases (suc k) = inr (k, refl)

module _ {Notification : Type 0} where
  -- What is left to do until the channel done is closed.
  unfoldable pub work : System Notification → ℕ
  work s =
      3 * length s.manager.mailbox
      + 3 * length s.fetched
      + 2 * length s.delivering
      + s.idle
      + 2 * s.waiting
      + s.draining

  module _ (capacity workers : ℕ) where
    -- A step of a worker or of a goroutine in finish.
    abbrev pub IsInternal : {s t : System Notification} → Step capacity workers s t → Type 0
    IsInternal (Step.receive k id rest i h) = Unit
    IsInternal (Step.begin xs ys id m found h b) = Unit
    IsInternal (Step.complete xs ys id n e h) = Unit
    IsInternal (Step.exit k i h) = Unit
    IsInternal (Step.pass k m sp w i f d h) = Unit
    IsInternal (Step.discard k id rest m cs d h x) = Unit
    IsInternal (Step.finish k m d e cl h) = Unit
    IsInternal _ = ⊥

    -- A step of that kind that leaves less to do.
    abbrev pub Advances : System Notification → Type 0
    Advances s =
        (t : System Notification) × (x : Step capacity workers s t) × IsInternal x
        × (work t < work s)

    begin-Advances :
        {s : System Notification}
        → Reach capacity workers s
        → (id : ℕ) (ys : List ℕ) → s.fetched ≡ id ∷ ys
        → Advances s
    begin-Advances {s} r id ys h =
        let ((m, found), e) =
          Runs-runs (begin_dispatch id s.manager)
            (begin_dispatch-found capacity workers r [] ys id h).0 in
        (begun id ys m found s, Step.begin [] ys id m found h e, tt, less m found e)
      where
        less :
            (m : Manager Notification) (found : Option Notification)
            → begin_dispatch id s.manager ≡ runs (m, found)
            → work (begun id ys m found s) < work s
        less m none e = unfold work Manager.begin_dispatch in ground (arith, ap length h)
        less m (some n) e = unfold work Manager.begin_dispatch in ground (arith, ap length h)

    complete-Advances :
        (s : System Notification) (id : ℕ) (n : Notification) (ys : List (ℕ × Notification))
        → s.delivering ≡ (id, n) ∷ ys
        → Advances s
    unfolding work
    complete-Advances s id n ys h =
        (_, Step.complete [] ys id n none h, tt, ground (arith, ap length h))

    idle-Advances :
        {s : System Notification}
        → Reach capacity workers s
        → s.manager.stopped ≡ true
        → (k : ℕ) → s.idle ≡ suc k
        → Advances s
    unfolding work
    idle-Advances {s} r st k h =
        let c = Reach-Control capacity workers r in
        elim (List-cases s.manager.mailbox) [
          | inl e ↦ (_, Step.exit k h (inr (e, ground (arith, c))), tt, ground arith)
          | inr (id, rest, e) ↦ (_, Step.receive k id rest h e, tt, ground (arith, ap length e))
        ]

    pass-Advances :
        {s : System Notification}
        → Reach capacity workers s
        → (k : ℕ) → s.waiting ≡ suc k
        → s.idle ≡ 0
        → s.fetched ≡ []
        → s.delivering ≡ []
        → Advances s
    pass-Advances {s} r k w i f d =
        let ((m, spawned), e) =
          Runs-runs (stop false s.manager) (stop-Runs capacity workers r false) in
        (_, Step.pass k m spawned w i f d e, tt, less m spawned e)
      where
        less :
            (m : Manager Notification) (spawned : Bool)
            → stop false s.manager ≡ runs (m, spawned)
            → work (record s { manager = m; waiting = k + bit spawned; draining = s.draining + 1 })
              < work s
        less m spawned e =
            let c = Reach-Control capacity workers r in
            unfold work Manager.stop in ground (arith, c)

    drain-Advances :
        {s : System Notification}
        → Reach capacity workers s
        → s.manager.stopped ≡ true
        → (k : ℕ) → s.draining ≡ suc k
        → Advances s
    drain-Advances {s} r st k h =
        let c = Reach-Control capacity workers r in
        elim (List-cases s.manager.mailbox) [
          | inl e ↦
              let (m, x) =
                Runs-runs (close_done s.manager)
                  (close_done-Runs capacity workers r (omega arith)) in
              (_, Step.finish k m h e (ground (arith, c)) x, tt, closed m x)
          | inr (id, rest, e) ↦
              let (m, x) = discard-reports capacity workers r id rest e in
              (_, Step.discard k id rest m _ h e x, tt, less id rest m e x)
        ]
      where
        closed :
            (m : Manager Notification)
            → close_done s.manager ≡ runs m
            → work (record s { manager = m; draining = k }) < work s
        closed m x = unfold work close_done in ground arith

        less :
            (id : ℕ) (rest : List ℕ) (m : Manager Notification)
            → s.manager.mailbox ≡ id ∷ rest
            → discard id (record (s.manager) { mailbox = rest })
              ≡ runs (m, (id, some manager_stopped) ∷ [])
            → work (record s { manager = m; completed = (id, some manager_stopped) ∷ s.completed })
              < work s
        less id rest m e x = unfold work Manager.discard in ground (arith, ap length e)

    pub advances :
        {s : System Notification}
        → Reach capacity workers s
        → s.manager.stopped ≡ true
        → s.manager.done_closed ≡ false
        → Advances s
    advances {s} r st nd = elim (List-cases s.fetched) [
      | inr (id, ys, f) ↦ begin-Advances r id ys f
      | inl f ↦ elim (List-cases s.delivering) [
        | inr ((id, n), ys, d) ↦ complete-Advances s id n ys d
        | inl d ↦ elim (ℕ-cases s.idle) [
          | inr (k, i) ↦ idle-Advances r st k i
          | inl i ↦ elim (ℕ-cases s.waiting) [
            | inr (k, w) ↦ pass-Advances r k w i f d
            | inl w ↦
                let c = Reach-Control capacity workers r in
                drain-Advances r st 0 (ground (arith, c))
          ]
        ]
      ]
    ]

    -- A sequence of such steps.
    pub data Run : System Notification → System Notification → Type 0 where
      stay : {s : System Notification} → Run s s
      go :
          {s t u : System Notification} (x : Step capacity workers s t)
          → IsInternal x
          → Run t u
          → Run s u

    finishes_within :
        (fuel : ℕ) {s : System Notification}
        → Reach capacity workers s
        → s.manager.stopped ≡ true
        → work s < fuel
        → (t : System Notification) × Run s t × (t.manager.done_closed ≡ true)
    finishes_within zero r st l = elim l [ ]
    finishes_within (suc fuel) {s} r st l = elim (Bool-cases s.manager.done_closed) [
      | inl yes_done ↦ (s, Run.stay, yes_done)
      | inr nd ↦
          let (t, step, internal, lt) = advances r st nd in
          let (u, run, over) =
            finishes_within fuel (Reach.next r step) (stopped_for_good capacity workers step st).0
              (omega arith) in
          (u, Run.go step internal run, over)
    ]

    -- From every reachable state in which admission is stopped, the steps of the workers and of
    -- finish alone lead to a state where the channel done is closed: shutdown never deadlocks.
    pub shutdown_finishes :
        {s : System Notification}
        → Reach capacity workers s
        → s.manager.stopped ≡ true
        → (t : System Notification) × Run s t × (t.manager.done_closed ≡ true)
    shutdown_finishes {s} r st = finishes_within (suc (work s)) r st (omega arith)
