-- ===== src/Tests/Manager.antt =====
-- A life of a manager with one worker and a queue of two, and the theorems along it.
use notifykit.Base.{◌⊎◌}
use notifykit.Notify.Manager.Progress.{work, Advances}
use notifykit.Notify.Manager.Termination.{steps, shutdown_terminates}
use notifykit.Base.{ℕ, ◌+◌, ◌≤◌, ◌≡◌, refl, true, none, some, [], ◌∷◌}
use notifykit.Notify.Error.{manager_stopped}
use notifykit.Notify.Store.{count, ids, get, put, delete}
use notifykit.Notify.Manager.{Manager, runs, send_slot, close_done}
use notifykit.Notify.Manager
use notifykit.Notify.Manager.Steps.{System, Step, Reach, completed_ids}
use notifykit.Notify.Manager.Control.{live}
use notifykit.Notify.Manager.Safety.{Runs, admit-Runs, done_complete}
use notifykit.Notify.Manager.Progress.{Run, shutdown_finishes}

-- An Enqueue call holds a slot.
reserved : (s : System ℕ) × Reach 2 1 s
unfolding send_slot count
reserved = (_, Reach.next Reach.here (Step.reserve 7 50 _ refl refl))

-- It is admitted.
queued : (s : System ℕ) × Reach 2 1 s
unfolding reserved Manager.admit put
queued = (_, Reach.next reserved.1 (Step.admit [] [] 7 50 none _ _ refl refl))

-- Shutdown before Start: the finishing goroutine discards what is queued.
stopped : (s : System ℕ) × Reach 2 1 s
unfolding queued Manager.stop
stopped = (_, Reach.next queued.1 (Step.stop true _ _ refl))

-- The manager is started, and the worker takes the ID.
fetched : (s : System ℕ) × Reach 2 1 s
unfolding queued Manager.start
fetched = (_, Reach.next (Reach.next queued.1 (Step.start _ refl)) (Step.receive 0 7 [] refl refl))

-- With the manager stopped before Start, its finishing goroutine reaches the drain.
draining : (s : System ℕ) × Reach 2 1 s
unfolding stopped Manager.stop
draining = (_, Reach.next stopped.1 (Step.pass 0 _ _ refl refl refl refl refl))

-- It discards the notification and closes the channel done.
finished : (s : System ℕ) × Reach 2 1 s
unfolding draining Manager.discard close_done get delete
finished = (
  _,
  Reach.next (Reach.next draining.1 (Step.discard 0 7 [] _ _ refl refl refl))
      (Step.finish 0 _ refl refl refl refl),
)

discarded : finished.0.completed ≡ (7, some manager_stopped) ∷ []
unfolding finished
discarded = refl

done_complete_example :
    (live finished.0 ≡ 0)
    × (finished.0.manager.mailbox ≡ [])
    × ((a : ℕ)
        → (count a (ids finished.0.manager.store) ≡ 0)
          × (count a (completed_ids finished.0.completed) ≡ count a finished.0.accepted))
unfolding finished
done_complete_example = done_complete 2 1 finished.1 refl

admit-Runs_example : Runs (Manager.admit 2 7 50 none reserved.0.manager)
unfolding reserved
admit-Runs_example = admit-Runs 2 1 reserved.1 [] [] 7 50 none refl

shutdown_finishes_example : (t : System ℕ) × Run 2 1 stopped.0 t × (t.manager.done_closed ≡ true)
unfolding stopped
shutdown_finishes_example = shutdown_finishes 2 1 stopped.1 refl

-- The steps of the finishing goroutine from there, to the end.
drained : (t : System ℕ) × Run 2 1 stopped.0 t
unfolding stopped
drained = let finish = shutdown_finishes 2 1 stopped.1 refl in (finish.0, finish.1)

shutdown_terminates_example :
    (steps 2 1 drained.1 + work drained.0 ≤ work stopped.0)
    × ((drained.0.manager.done_closed ≡ true) ⊎ Advances 2 1 drained.0)
unfolding stopped
shutdown_terminates_example = shutdown_terminates 2 1 stopped.1 refl drained.1
