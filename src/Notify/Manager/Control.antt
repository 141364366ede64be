-- ===== src/Notify/Manager/Control.antt =====
-- The control state of notify/manager.go: slots, shutdown flags, workers and the finishing goroutine.
use notifykit.Base.{
  ℕ, suc, ◌+◌, ◌≤◌, ◌≡◌, true, false, ◌||◌, none, some, List, [], ◌∷◌, ◌++◌, ◌⊎◌, length,
  length-append, arith, ap,
}
use notifykit.Notify.Manager.{
  Manager, Act, runs, admit, stop, begin_dispatch, discard, send_slot, close_done,
}
use notifykit.Notify.Manager
use notifykit.Notify.Manager.Steps.{System, Step, bit, init}
use notifykit.Notify.Manager.Ledger.{LedgerAt, fetched-found}

pub length-remove {ℓ} :
    {A : Type ℓ} {l : List A} (xs ys : List A) (x : A)
    → l ≡ xs ++ (x ∷ ys)
    → length l ≡ suc (length (xs ++ ys))
length-remove {l} xs ys x h =
    omega (arith, ap length h, length-append xs (x ∷ ys), length-append xs ys)

module _ {Notification : Type 0} where
  -- The workers that have not exited.
  abbrev pub live : System Notification → ℕ
  live s = s.idle + length s.fetched + length s.delivering

  -- The goroutines in finish after workersDone.Wait, and those that have returned.
  abbrev pub past_wait : System Notification → ℕ
  past_wait s = s.draining + bit s.manager.done_closed

  pub record Control (capacity : ℕ) (s : System Notification) : Type 0 where
    pub slots_used :
        s.manager.slots ≡ length s.manager.mailbox + length s.admitting + length s.fetched
    pub slots_bound : s.manager.slots ≤ capacity
    pub mailbox_stopped : s.manager.mailbox_closed ≡ s.manager.stopped
    pub stopping_stopped : s.manager.stopping_closed ≡ s.manager.stopped
    pub one_finisher : s.waiting + past_wait s ≡ bit s.manager.finishing
    pub finishing_when : s.manager.finishing ≡ (s.manager.started || s.manager.stopped)
    pub drained : (past_wait s ≡ 0) ⊎ ((live s ≡ 0) × (s.manager.stopped ≡ true))
    pub emptied : (s.manager.done_closed ≡ false) ⊎ (s.manager.mailbox ≡ [])

  pub init-Control : (capacity : ℕ) → Control capacity init
  init-Control capacity = ground arith

  module _ (capacity workers : ℕ) where
    pub Step-Control :
        {s t : System Notification}
        → Step capacity workers s t
        → ((b : ℕ) → LedgerAt b s)
        → Control capacity s
        → Control capacity t
    unfolding Manager.admit Manager.stop Manager.start Manager.begin_dispatch Manager.discard
        send_slot close_done
    Step-Control (Step.reserve id n m f e) l c = ground arith
    Step-Control {s} (Step.admit xs ys id n err m e h a) l c =
        ground (arith, length-remove xs ys (id, n) h, length-append s.manager.mailbox (id ∷ []))
    Step-Control (Step.start m h) l c = ground arith
    Step-Control (Step.cancel h) l c = ground arith
    Step-Control (Step.stop drain m sp h) l c = ground arith
    Step-Control (Step.receive k id rest i h) l c = ground arith
    Step-Control {s} (Step.begin xs ys id m none h b) l c =
        ground (arith, fetched-found s xs ys id (l id) h)
    Step-Control (Step.begin xs ys id m (some n) h b) l c = ground (arith, length-remove xs ys id h)
    Step-Control (Step.complete xs ys id n e h) l c = ground (arith, length-remove xs ys (id, n) h)
    Step-Control (Step.exit k i h) l c = ground arith
    Step-Control (Step.pass k m sp w i f d h) l c = ground arith
    Step-Control (Step.discard k id rest m cs d h x) l c = ground arith
    Step-Control (Step.finish k m d e cl h) l c = ground arith
