-- ===== src/Notify/Manager.antt =====
-- notify/manager.go and notify/dispatcher.go: the queue, its workers and its shutdown.
-- `Manager` is the shared state. `System` adds the goroutines: the Enqueue calls that hold a slot and
-- wait for the lock, the workers by what they are doing, and the goroutines in finish. A section
-- under the lock is one function, and `Manager.Steps` is the relation of its interleavings.
-- A worker's get, delete and slot release for its own queue ID are one step, and so are finish's.
-- What an operation on a channel does is written out: it may block, and it may panic.
pub mod Steps
pub mod Control
pub mod Ledger
pub mod Safety
pub mod Progress
pub mod Termination
pub mod Content
use notifykit.Base.{
  ℕ, zero, suc, ◌+◌, ◌-◌, Bool, true, false, not, ◌&&◌, ◌||◌, ltb, Option, none, some, List, [],
  ◌∷◌, ◌++◌, length, is_empty, if◌then◌else◌,
}
use notifykit.Notify.Error.{Error, manager_started, manager_stopped}
use notifykit.Notify.Store.{put, get, delete}

-- The fields of a Manager that change. The channel mailbox is its buffered IDs and whether it is
-- closed, slots is the number of its buffered tokens, runCtx is nil or a context that is done or
-- not, and done and stopping are whether the channel is closed.
pub record Manager (Notification : Type 0) : Type 0 where
  pub store : List (ℕ × Notification)
  pub mailbox : List ℕ
  pub mailbox_closed : Bool
  pub slots : ℕ
  pub started : Bool
  pub stopped : Bool
  pub finishing : Bool
  pub stopping_closed : Bool
  pub done_closed : Bool
  pub run_ctx : Option Bool

-- What a section of code comes to.
pub data Act {ℓ} (A : Type ℓ) : Type ℓ where
  runs : A → Act A
  blocks : Act A
  panics : Act A

infixl 5 ◌>>=◌
abbrev pub ◌>>=◌ {ℓ κ} : {A : Type ℓ} {B : Type κ} → Act A → (A → Act B) → Act B
runs a >>= f = f a
blocks >>= f = blocks
panics >>= f = panics

-- The outcome of a queued notification; of Completion, the queue ID and Err.
abbrev pub Completion : Type 0
Completion = ℕ × Option Error

-- `m.runCtx != nil && m.runCtx.Err() != nil`
abbrev pub ctx_done : Option Bool → Bool
ctx_done none = false
ctx_done (some over) = over

-- `m.cancel()`, which is set together with runCtx.
abbrev pub cancelled : Option Bool → Option Bool
cancelled none = none
cancelled (some over) = some true

module _ {Notification : Type 0} where
  -- `m.mailbox <- id`
  unfoldable pub send_mailbox : ℕ → ℕ → Manager Notification → Act (Manager Notification)
  send_mailbox capacity id m =
      if m.mailbox_closed
      then panics
      else (if ltb (length m.mailbox) capacity
          then runs (record m { mailbox = m.mailbox ++ id ∷ [] })
          else blocks)

  -- `<-m.slots`; the channel slots is never closed.
  unfoldable pub receive_slot : Manager Notification → Act (Manager Notification)
  receive_slot m = if ltb 0 m.slots then runs (record m { slots = m.slots - 1 }) else blocks

  -- `m.slots <- struct{}{}`
  unfoldable pub send_slot : ℕ → Manager Notification → Act (Manager Notification)
  send_slot capacity m =
      if ltb m.slots capacity then runs (record m { slots = m.slots + 1 }) else blocks

  unfoldable pub close_stopping : Manager Notification → Act (Manager Notification)
  close_stopping m =
      if m.stopping_closed then panics else runs (record m { stopping_closed = true })

  unfoldable pub close_mailbox : Manager Notification → Act (Manager Notification)
  close_mailbox m = if m.mailbox_closed then panics else runs (record m { mailbox_closed = true })

  unfoldable pub close_done : Manager Notification → Act (Manager Notification)
  close_done m = if m.done_closed then panics else runs (record m { done_closed = true })

  -- Enqueue under the lock, with what ctx.Err() gives there; the new ID is `id`.
  unfoldable pub admit :
      ℕ
      → ℕ
      → Notification
      → Option Error
      → Manager Notification
      → Act (Manager Notification × Option Error)
  unfolding receive_slot send_mailbox
  admit capacity id n err m =
      if m.stopped || ctx_done m.run_ctx
      then (do m' ← receive_slot m; runs (m', some manager_stopped))
      else elim err [
        | some e ↦ (do m' ← receive_slot m; runs (m', some e))
        | none ↦ (do
          m' ← send_mailbox capacity id (record m { store = put id n m.store })
          runs (m', none))
      ]

  -- `if !m.stopped { … }` of stop.
  unfoldable pub stop_admission : Manager Notification → Act (Manager Notification)
  unfolding close_stopping close_mailbox
  stop_admission m =
      if m.stopped
      then runs m
      else (do m₁ ← close_stopping (record m { stopped = true }); close_mailbox m₁)

  -- stop, and whether it starts a goroutine in finish.
  unfoldable pub stop : Bool → Manager Notification → Act (Manager Notification × Bool)
  unfolding stop_admission
  stop drain m = do
    m₁ ← stop_admission m
    runs (
      record m₁ { finishing = true; run_ctx = if drain then m₁.run_ctx else cancelled m₁.run_ctx },
      not m₁.finishing,
    )

  -- Start under the lock, from a context that is not done: an error, or the workers and a goroutine
  -- in finish are started.
  unfoldable pub start : Manager Notification → Manager Notification × Option Error
  start m =
      if m.started
      then (m, some manager_started)
      else if m.stopped
      then (m, some manager_stopped)
      else (record m { started = true; finishing = true; run_ctx = some false }, none)

  -- dispatch up to onDequeue, and the notification to deliver.
  unfoldable pub begin_dispatch :
      ℕ → Manager Notification → Act (Manager Notification × Option Notification)
  unfolding receive_slot
  begin_dispatch id m = elim (get id m.store) [
    | none ↦ runs (m, none)
    | some n ↦ (do m' ← receive_slot (record m { store = delete id m.store }); runs (m', some n))
  ]

  -- One round of the loop of finish on the received ID, and the completion that it reports.
  unfoldable pub discard : ℕ → Manager Notification → Act (Manager Notification × List Completion)
  unfolding receive_slot
  discard id m =
      let found = get id m.store in
      (do
        m' ← receive_slot (record m { store = delete id m.store })
        runs (m', elim found [ none ↦ [] | some n ↦ (id, some manager_stopped) ∷ [] ]))

-- NewManager's manager.
abbrev pub new_manager : {Notification : Type 0} → Manager Notification
new_manager = record {
  store = [];
  mailbox = [];
  mailbox_closed = false;
  slots = 0;
  started = false;
  stopped = false;
  finishing = false;
  stopping_closed = false;
  done_closed = false;
  run_ctx = none;
}
