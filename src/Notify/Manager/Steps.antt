-- ===== src/Notify/Manager/Steps.antt =====
-- The goroutines around a manager of notify/manager.go, and the steps that interleave.
use notifykit.Base.{
  ℕ, suc, ◌+◌, ◌≡◌, Bool, true, false, Option, none, some, List, [], ◌∷◌, ◌++◌, ◌⊎◌,
}
use notifykit.Notify.Error.{Error}
use notifykit.Notify.Store.{count, ids}
use notifykit.Notify.Manager.{
  Manager, Completion, runs, ctx_done, send_slot, close_done, new_manager,
}
use notifykit.Notify.Manager

pub record System (Notification : Type 0) : Type 0 where
  pub manager : Manager Notification
  -- Enqueue calls between the select and the lock
  pub admitting : List (ℕ × Notification)
  -- workers in the select of start, those that received an ID, and those that deliver
  pub idle : ℕ
  pub fetched : List ℕ
  pub delivering : List (ℕ × Notification)
  -- goroutines in finish before and after workersDone.Wait returns
  pub waiting : ℕ
  pub draining : ℕ
  -- the completions reported, and the IDs that Enqueue returned, each latest first
  pub completed : List Completion
  pub accepted : List ℕ

abbrev pub bit : Bool → ℕ
bit true = 1
bit false = 0

abbrev pub completed_ids : List Completion → List ℕ
completed_ids [] = []
completed_ids ((id, e) ∷ cs) = id ∷ completed_ids cs

-- The ID of an Enqueue that returned no error.
abbrev pub accepting : ℕ → Option Error → List ℕ → List ℕ
accepting id none l = id ∷ l
accepting id (some e) l = l

module _ {Notification : Type 0} where
  -- A worker that has found its notification delivers it; one that has not goes back to the select.
  abbrev pub begun :
      ℕ
      → List ℕ
      → Manager Notification
      → Option Notification
      → System Notification
      → System Notification
  begun id left m none s = record s { manager = m; fetched = left; idle = s.idle + 1 }
  begun id left m (some n) s = record s {
    manager = m;
    fetched = left;
    delivering = (id, n) ∷ s.delivering;
  }

  abbrev pub init : System Notification
  init = record {
    manager = new_manager;
    admitting = [];
    idle = 0;
    fetched = [];
    delivering = [];
    waiting = 0;
    draining = 0;
    completed = [];
    accepted = [];
  }

  module _ (capacity workers : ℕ) where
    pub data Step (s : System Notification) : System Notification → Type 0 where
      -- Enqueue takes a slot, with an ID that uuid.NewV7 has not given before.
      reserve :
          (id : ℕ) (n : Notification) (m : Manager Notification)
          → count id s.accepted + count id (ids s.admitting) ≡ 0
          → send_slot capacity s.manager ≡ runs m
          → Step s (record s { manager = m; admitting = (id, n) ∷ s.admitting })
      -- It takes the lock and admits the notification or gives the slot back.
      admit :
          (xs ys : List (ℕ × Notification)) (id : ℕ) (n : Notification) (err : Option Error)
          (m : Manager Notification) (e : Option Error)
          → s.admitting ≡ xs ++ ((id, n) ∷ ys)
          → Manager.admit capacity id n err s.manager ≡ runs (m, e)
          → Step s
              (record s { manager = m; admitting = xs ++ ys; accepted = accepting id e s.accepted })
      start :
          (m : Manager Notification)
          → Manager.start s.manager ≡ (m, none)
          → Step s (record s { manager = m; idle = s.idle + workers; waiting = s.waiting + 1 })
      -- The context given to Start is cancelled.
      cancel :
          s.manager.run_ctx ≡ some false
          → Step s (record s { manager = record (s.manager) { run_ctx = some true } })
      -- Shutdown, and the function that waits for the context given to Start.
      stop :
          (drain : Bool) (m : Manager Notification) (spawned : Bool)
          → Manager.stop drain s.manager ≡ runs (m, spawned)
          → Step s (record s { manager = m; waiting = s.waiting + bit spawned })
      receive :
          (k id : ℕ) (rest : List ℕ)
          → s.idle ≡ suc k
          → s.manager.mailbox ≡ id ∷ rest
          → Step s (record s {
            manager = record (s.manager) { mailbox = rest };
            idle = k;
            fetched = id ∷ s.fetched;
          })
      begin :
          (xs ys : List ℕ) (id : ℕ) (m : Manager Notification) (found : Option Notification)
          → s.fetched ≡ xs ++ (id ∷ ys)
          → Manager.begin_dispatch id s.manager ≡ runs (m, found)
          → Step s (begun id (xs ++ ys) m found s)
      complete :
          (xs ys : List (ℕ × Notification)) (id : ℕ) (n : Notification) (e : Option Error)
          → s.delivering ≡ xs ++ ((id, n) ∷ ys)
          → Step s (record s {
            idle = s.idle + 1;
            delivering = xs ++ ys;
            completed = (id, e) ∷ s.completed;
          })
      exit :
          (k : ℕ)
          → s.idle ≡ suc k
          → (ctx_done s.manager.run_ctx ≡ true)
            ⊎ ((s.manager.mailbox ≡ []) × (s.manager.mailbox_closed ≡ true))
          → Step s (record s { idle = k })
      -- In finish workersDone.Wait returns, and stop(false) is called.
      pass :
          (k : ℕ) (m : Manager Notification) (spawned : Bool)
          → s.waiting ≡ suc k
          → s.idle ≡ 0
          → s.fetched ≡ []
          → s.delivering ≡ []
          → Manager.stop false s.manager ≡ runs (m, spawned)
          → Step s (record s { manager = m; waiting = k + bit spawned; draining = s.draining + 1 })
      discard :
          (k id : ℕ) (rest : List ℕ) (m : Manager Notification) (cs : List Completion)
          → s.draining ≡ suc k
          → s.manager.mailbox ≡ id ∷ rest
          → Manager.discard id (record (s.manager) { mailbox = rest }) ≡ runs (m, cs)
          → Step s (record s { manager = m; completed = cs ++ s.completed })
      finish :
          (k : ℕ) (m : Manager Notification)
          → s.draining ≡ suc k
          → s.manager.mailbox ≡ []
          → s.manager.mailbox_closed ≡ true
          → close_done s.manager ≡ runs m
          → Step s (record s { manager = m; draining = k })

    pub data Reach : System Notification → Type 0 where
      here : Reach init
      next : {s t : System Notification} → Reach s → Step s t → Reach t
