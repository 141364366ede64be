-- ===== src/Tests/Completions.antt =====
-- A life of a manager that delivers a notification, and what it reports.
use notifykit.Base.{ℕ, ◌≡◌, refl, ◌∙◌, sym, pos, true, false, Option, none, some, [], ◌∷◌, All, inr}
use notifykit.Notify.Error.{Error}
use notifykit.Notify.Send.{send}
use notifykit.Notify.Receivers.{normalize_receivers}
use notifykit.Notify.Store.{count, get, put, delete}
use notifykit.Notify.Manager.{send_slot, close_done}
use notifykit.Notify.Manager
use notifykit.Notify.Manager.Steps.{System, Step, Reach, completed_ids}
use notifykit.Notify.Manager.Content.{admitted}
use notifykit.Notify.Dispatcher.{dispatch_queued-send, with_workers, with_queue_capacity}
use notifykit.Notify.Dispatcher.Serial.{send_returns}
use notifykit.Notify.Dispatcher.Completions.{IsSettled, AllDeliver, completed-IsSettled}
use notifykit.Tests.Receivers.{counting, live, notifications, teams, manager_built, five_named}

-- An Enqueue call is admitted, and the manager is started.
started : (s : System ℕ) × Reach 2 1 s
unfolding send_slot count Manager.admit put Manager.start
started = (
  _,
  Reach.next
      (Reach.next (Reach.next Reach.here (Step.reserve 7 5 _ refl refl))
        (Step.admit [] [] 7 5 none _ _ refl refl))
      (Step.start _ refl),
)

-- What Send returns for the notification, and with it what the worker reports.
sent :
    (e : Option Error) × (w : ℕ) × (send live counting notifications false (some 5) teams 0
      ≡ some (e, w))
sent = send_returns live counting notifications teams 5 0

delivered : (s : System ℕ) × Reach 2 1 s
unfolding started Manager.begin_dispatch get delete
delivered = (
  _,
  Reach.next
      (Reach.next (Reach.next started.1 (Step.receive 0 7 [] refl refl))
        (Step.begin [] [] 7 _ _ refl refl))
      (Step.complete [] [] 7 5 sent.0 refl),
)

-- Shutdown; the worker leaves, and the finishing goroutine closes the channel done.
ended : (s : System ℕ) × Reach 2 1 s
unfolding delivered Manager.stop close_done
ended = (
  _,
  Reach.next
      (Reach.next
        (Reach.next (Reach.next delivered.1 (Step.stop true _ _ refl))
          (Step.exit 0 refl (inr (refl, refl))))
        (Step.pass 0 _ _ refl refl refl refl refl))
      (Step.finish 0 _ refl refl refl refl),
)

ended_deliver : AllDeliver live counting notifications teams 2 1 (normalize_receivers teams) ended.1
unfolding ended
ended_deliver =
    let same =
      dispatch_queued-send live counting notifications
        (some (with_workers (pos 0)) ∷ none ∷ some (with_queue_capacity (pos 2)) ∷ []) teams
        (record { workers = pos 1; capacity = pos 2 }) (normalize_receivers teams) 5 0 manager_built
        five_named in
    (tt, (tt, (tt, (tt, ((0, sent.1, sym same.2 ∙ sent.2), (tt, (tt, (tt, (tt, (tt, tt))))))))))

completed-IsSettled_example :
    All (IsSettled live counting notifications teams (admitted 2 1 ended.1)) ended.0.completed
    × ((a : ℕ) → count a (completed_ids ended.0.completed) ≡ count a ended.0.accepted)
unfolding ended
completed-IsSettled_example =
    completed-IsSettled live counting notifications teams 2 1 (normalize_receivers teams)
      (some (with_workers (pos 0)) ∷ none ∷ some (with_queue_capacity (pos 2)) ∷ [])
      (record { workers = pos 1; capacity = pos 2 }) manager_built ended.1 ended_deliver
      (five_named, tt) refl
