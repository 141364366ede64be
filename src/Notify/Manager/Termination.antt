-- ===== src/Notify/Manager/Termination.antt =====
-- notify/manager.go: the workers and finish of a manager come to an end, in whatever order they run.
use notifykit.Base.{
  ℕ, suc, ◌+◌, ◌≤◌, ◌<◌, ◌≡◌, ◌⊎◌, inl, inr, true, Option, none, some, List, ◌∷◌, ◌++◌, arith, ap,
  length, length-append, Bool-cases,
}
use notifykit.Notify.Manager.{Manager, Act, runs, stop, begin_dispatch, discard, close_done}
use notifykit.Notify.Manager
use notifykit.Notify.Manager.Steps.{System, Step, Reach, begun}
use notifykit.Notify.Manager.Safety.{Reach-Control, stopped_for_good}
use notifykit.Notify.Manager.Progress.{work, IsInternal, Run, Advances, advances}

module _ {Notification : Type 0} (capacity workers : ℕ) where
  begun-work :
      (s : System Notification) (xs ys : List ℕ) (id : ℕ) (m : Manager Notification)
      (found : Option Notification)
      → s.fetched ≡ xs ++ (id ∷ ys)
      → begin_dispatch id s.manager ≡ runs (m, found)
      → work (begun id (xs ++ ys) m found s) < work s
  unfolding work Manager.begin_dispatch
  begun-work s xs ys id m none f h =
      ground (arith, ap length f, length-append xs (id ∷ ys), length-append xs ys)
  begun-work s xs ys id m (some n) f h =
      ground (arith, ap length f, length-append xs (id ∷ ys), length-append xs ys)

  -- Every step of a worker or of finish leaves less to do.
  Step-work :
      {s t : System Notification}
      → Reach capacity workers s
      → (x : Step capacity workers s t) → IsInternal capacity workers x
      → work t < work s
  unfolding work
  Step-work r (Step.receive k id rest i h) p = ground (arith, ap length h)
  Step-work {s} r (Step.begin xs ys id m found f h) p = begun-work s xs ys id m found f h
  Step-work r (Step.complete xs ys id n e h) p =
      ground (arith, ap length h, length-append xs ((id, n) ∷ ys), length-append xs ys)
  Step-work r (Step.exit k i h) p = ground arith
  Step-work {s} r (Step.pass k m sp w i f d h) p =
      let c = Reach-Control capacity workers r in unfold Manager.stop in ground (arith, c)
  Step-work {s} r (Step.discard k id rest m cs d h x) p =
      unfold Manager.discard in ground (arith, ap length h)
  Step-work r (Step.finish k m d e cl h) p = unfold close_done in ground arith
  Step-work r (Step.reserve id n m f h) p = elim p [ ]
  Step-work r (Step.admit xs ys id n err m e h a) p = elim p [ ]
  Step-work r (Step.start m h) p = elim p [ ]
  Step-work r (Step.cancel h) p = elim p [ ]
  Step-work r (Step.stop drain m sp h) p = elim p [ ]

  abbrev pub steps : {s t : System Notification} → Run capacity workers s t → ℕ
  steps Run.stay = 0
  steps (Run.go x i run) = suc (steps run)

  Run-work :
      {s t : System Notification}
      → Reach capacity workers s
      → (run : Run capacity workers s t) → steps run + work t ≤ work s
  Run-work r Run.stay = omega arith
  Run-work r (Run.go x i run) = omega (arith, Step-work r x i, Run-work (Reach.next r x) run)

  Run-Advances :
      {s t : System Notification}
      → Reach capacity workers s
      → s.manager.stopped ≡ true
      → (run : Run capacity workers s t)
      → (t.manager.done_closed ≡ true) ⊎ Advances capacity workers t
  Run-Advances {s} r st Run.stay = elim (Bool-cases s.manager.done_closed) [
    | inl over ↦ inl over
    | inr running ↦ inr (advances capacity workers r st running)
  ]
  Run-Advances r st (Run.go x i run) =
      Run-Advances (Reach.next r x) (stopped_for_good capacity workers x st).0 run

  -- From every reachable state in which admission is stopped, the steps of the workers and of finish
  -- come to an end in whatever order they are made: a sequence of them has at most as many as there
  -- is work, and where it cannot be continued the channel done is closed.
  pub shutdown_terminates :
      {s t : System Notification}
      → Reach capacity workers s
      → s.manager.stopped ≡ true
      → (run : Run capacity workers s t)
      → (steps run + work t ≤ work s)
        × ((t.manager.done_closed ≡ true) ⊎ Advances capacity workers t)
  shutdown_terminates r st run = (Run-work r run, Run-Advances r st run)
