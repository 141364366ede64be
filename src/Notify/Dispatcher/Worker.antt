-- ===== src/Notify/Dispatcher/Worker.antt =====
-- notify/dispatcher.go: start and dispatch of one worker, with what it reports and logs.
-- The channel of slots is the manager's. A call of the logger or of onComplete is an entry of a list.
-- The entries that select takes from its two channels are a list; where it ends, select waits.
use notifykit.Base.{ℕ, Option, none, some, List, [], ◌∷◌, ◌++◌}
use notifykit.Text.{Text}
use notifykit.Notify.Error.{Error}
use notifykit.Notify.Retry.{Runtime}
use notifykit.Notify.Receivers.{Receiver, resolve_receivers}
use notifykit.Notify.Delivery.{Targets}
use notifykit.Notify.Manager.{Manager, Act, runs, blocks, panics, ◌>>=◌}
use notifykit.Notify.Manager
use notifykit.Notify.Send.{Notifications, receiver_ids}
use notifykit.Notify.Dispatcher.{dispatch_queued}

-- Completion of notify/manager.go.
pub record Report : Type 0 where
  pub queue_id : ℕ
  pub notification_id : Text
  pub error : Option Error

-- The calls of the logger.
pub data Line : Type 0 where
  not_found : ℕ → Line
  unresolved : ℕ → Text → Line
  failed : ℕ → Text → Error → Line
  delivered : ℕ → Text → Line

-- What select gives: ctx.Done(), or what the mailbox gives.
pub data Event : Type 0 where
  context_done : Event
  closed : Event
  received : ℕ → Event

pub record Worker (Notification World : Type 0) : Type 0 where
  pub manager : Manager Notification
  pub world : World
  pub reports : List Report
  pub lines : List Line

module _ {Notification : Type 0} (ns : Notifications Notification) where
  abbrev pub report_of : ℕ → Notification → Option Error → Report
  report_of id n error = record { queue_id = id; notification_id = ns.id n; error = error }

  -- The last call of the logger in dispatch.
  abbrev pub line_of :
      {Target Value : Type 0}
      → ℕ
      → Notification
      → List (Receiver Target Value)
      → Option Error
      → Line
  line_of id n [] e = unresolved id (ns.id n)
  line_of id n (r ∷ rs) none = delivered id (ns.id n)
  line_of id n (r ∷ rs) (some e) = failed id (ns.id n) e

module _ {Target Notification Value World : Type 0} (rt : Runtime World)
    (ops : Targets Target Notification Value World) (ns : Notifications Notification)
    (receivers : List (Text × Receiver Target Value)) where
  -- dispatch, from the return of onDequeue on.
  unfoldable pub deliver_queued :
      ℕ → Notification → Worker Notification World → Act (Worker Notification World)
  deliver_queued id n s = elim (dispatch_queued rt ops ns n receivers s.world) [
    | none ↦ panics
    | some (e, w) ↦ runs (record s {
      world = w;
      reports = s.reports ++ report_of ns id n e ∷ [];
      lines =
          s.lines
          ++ line_of ns id n (resolve_receivers receivers (receiver_ids (ns.router n))) e ∷ [];
    })
  ]

  unfoldable pub dispatch_found :
      ℕ
      → Worker Notification World
      → Manager Notification × Option Notification
      → Act (Worker Notification World)
  dispatch_found id s (m, none) =
      runs (record s { manager = m; lines = s.lines ++ not_found id ∷ [] })
  dispatch_found id s (m, some n) = deliver_queued id n (record s { manager = m })

  unfoldable pub dispatch_id : ℕ → Worker Notification World → Act (Worker Notification World)
  dispatch_id id s = Manager.begin_dispatch id s.manager >>= dispatch_found id s

  unfoldable pub start : List Event → Worker Notification World → Act (Worker Notification World)
  start [] s = runs s
  start (context_done ∷ events) s = runs s
  start (closed ∷ events) s = runs s
  start (received id ∷ events) s = do s' ← dispatch_id id s; start events s'
