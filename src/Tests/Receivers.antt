-- ===== src/Tests/Receivers.antt =====
-- Receiver maps, dispatch and Send at concrete inputs.
use mathlib.Core.List.{Permᴰ}
use notifykit.Notify.Store.{get, delete}
use notifykit.Notify.Manager.{new_manager, runs}
use notifykit.Notify.Dispatcher.Worker.{Worker, Report, start}
use notifykit.Notify.Dispatcher.Serial.{AreQueued, events_of, without, AreSent, start-AreSent}
use notifykit.Base.{
  ℕ, zero, suc, ◌+◌, ◌≡◌, ◌≢◌, refl, pos, ◌≤ℤ◌, true, false, Option, none, some, List, [], ◌∷◌, All,
  arith,
}
use notifykit.Text.{Text, bytes}
use notifykit.Notify.Error.{Error, message, DeliveryResult}
use notifykit.Notify.Retry.{Runtime}
use notifykit.Notify.Receivers.{
  Receiver, values, normalize_receivers, validate_receivers, resolve_receivers,
  validate_notification_id,
}
use notifykit.Notify.Receivers.Build.{no_retry}
use notifykit.Notify.Receivers.Resolve.{pick, nub, resolve_receivers-pick}
use notifykit.Notify.Receivers.Order.{resolve_all_order}
use notifykit.Notify.Delivery.{Payload, Targets, join, dispatch}
use notifykit.Notify.Delivery.Report.{all_outcomes, all_errors, final_world, dispatch-outcomes}
use notifykit.Notify.Send.{Notifications, send}
use notifykit.Notify.Dispatcher.{
  built, configured, apply_options, with_workers, with_queue_capacity, build_manager,
  dispatch_queued, dispatch_queued-send,
}
use notifykit.Notify.Send.Laws.{Sends, send-Sends}

-- A target is a number: the world counts the sends, and target 0 fails.
abbrev pub refused : Error
refused = message (bytes "refused") []

abbrev pub answer : DeliveryResult
answer = record { status = []; status_code = pos 200; response = []; retry_after = pos 0 }

abbrev send_target : ℕ → Payload ℕ ℕ → ℕ → DeliveryResult × Option Error × ℕ
send_target zero payload w = (answer, some refused, w + 1)
send_target (suc t) payload w = (answer, none, w + 1)

abbrev pub counting : Targets ℕ ℕ ℕ ℕ
counting = record { type_name = λ t. bytes "test"; send = send_target }

abbrev pub live : Runtime ℕ
live = record { ctx_err = λ w. none; await = λ d w. (true, w); random = λ w n. pos 0 }

abbrev pub notifications : Notifications ℕ
notifications = record { id = λ n. n ∷ []; router = λ n. none }

abbrev pub ops_team : Receiver ℕ ℕ
ops_team = record {
  id = bytes "ops";
  name = [];
  retry = no_retry;
  targets = some 0 ∷ some 1 ∷ [];
  custom_data = [];
}

abbrev dev_team : Receiver ℕ ℕ
dev_team = record ops_team { id = bytes "dev"; targets = some 2 ∷ [] }

abbrev pub teams : List (Text × Option (Receiver ℕ ℕ))
teams = (bytes "ops", some ops_team) ∷ (bytes "old", none) ∷ (bytes "dev", some dev_team) ∷ []

abbrev ready : List (Text × Receiver ℕ ℕ)
ready = (bytes "ops", ops_team) ∷ (bytes "dev", dev_team) ∷ []

abbrev ready_again : List (Text × Receiver ℕ ℕ)
ready_again = (bytes "dev", dev_team) ∷ (bytes "ops", ops_team) ∷ []

all_sorted : resolve_receivers ready [] ≡ dev_team ∷ ops_team ∷ []
unfolding resolve_receivers
all_sorted = refl

named_once : resolve_receivers ready (bytes "ops" ∷ bytes "gone" ∷ bytes "ops" ∷ []) ≡ ops_team ∷ []
unfolding resolve_receivers
named_once = refl

resolve_receivers-pick_example :
    resolve_receivers ready (bytes "ops" ∷ bytes "ops" ∷ [])
    ≡ pick ready (nub (bytes "ops" ∷ bytes "ops" ∷ []))
resolve_receivers-pick_example =
    resolve_receivers-pick ready (bytes "ops" ∷ bytes "ops" ∷ []) (λ e. cc)

ids_differ : ops_team.id ≢ dev_team.id
ids_differ e = ground arith

resolve_all_order_example : resolve_receivers ready [] ≡ resolve_receivers ready_again []
unfolding values
resolve_all_order_example =
    resolve_all_order ready ready_again (Permᴰ.swap refl refl) ((ids_differ, tt), (tt, tt))

abbrev pub payload : Payload ℕ ℕ
payload = record { notification = some 5; receiver = []; custom_data = [] }

abbrev both : List (Receiver ℕ ℕ)
both = ops_team ∷ dev_team ∷ []

both_present : All (λ r. All (λ t. t ≢ none) r.targets) both
both_present = ((λ e. cc, (λ e. cc, tt)), ((λ e. cc, tt), tt))

dispatch-outcomes_example :
    let oss = all_outcomes live counting payload both 0 in
    dispatch live counting payload both 0
    ≡ some (join (all_errors live counting both oss), final_world live counting 0 oss)
dispatch-outcomes_example = dispatch-outcomes live counting payload both 0 both_present

send-Sends_example :
    Sends live counting notifications teams 0 false
      (some 5)
      (send live counting notifications false (some 5) teams 0)
send-Sends_example = send-Sends live counting notifications teams 0 false (some 5)

-- A Workers option that is not positive leaves the default.
pub manager_built :
    build_manager
      (some (with_workers (pos 0)) ∷ none ∷ some (with_queue_capacity (pos 2)) ∷ [])
      teams
    ≡ built (record { workers = pos 1; capacity = pos 2 }) (normalize_receivers teams)
unfolding configured apply_options build_manager with_workers with_queue_capacity validate_receivers
    normalize_receivers
manager_built = refl

pub five_named : validate_notification_id (notifications.id 5) ≡ none
unfolding validate_notification_id
five_named = refl

dispatch_queued-send_example :
    (pos 1 ≤ℤ pos 2)
    × (pos 1 ≤ℤ pos 1)
    × (send live counting notifications false (some 5) teams 0
        ≡ dispatch_queued live counting notifications 5 (normalize_receivers teams) 0)
dispatch_queued-send_example =
    dispatch_queued-send live counting notifications
      (some (with_workers (pos 0)) ∷ none ∷ some (with_queue_capacity (pos 2)) ∷ []) teams
      (record { workers = pos 1; capacity = pos 2 }) (normalize_receivers teams) 5 0 manager_built
      five_named

-- Two notifications in the queue of a manager.
abbrev queue : Worker ℕ ℕ
queue = record {
  manager = record new_manager { store = (1, 5) ∷ (2, 6) ∷ []; slots = 2 };
  world = 0;
  reports = [];
  lines = [];
}

abbrev items : List (ℕ × ℕ)
items = (1, 5) ∷ (2, 6) ∷ []

items_queued : AreQueued notifications items queue.manager.store
unfolding get delete validate_notification_id
items_queued = (refl, refl, (refl, refl, tt))

start-AreSent_example :
    (t : Worker ℕ ℕ) × (rs : List Report) × (start live counting notifications
        (normalize_receivers teams)
        (events_of items)
        queue
      ≡ runs t)
    × (t.reports ≡ rs)
    × AreSent live counting notifications teams items 0 rs t.world
    × (t.manager.store ≡ without items queue.manager.store)
    × (t.manager.slots + 2 ≡ 2)
start-AreSent_example =
    start-AreSent live counting notifications teams (normalize_receivers teams)
      (some (with_workers (pos 0)) ∷ none ∷ some (with_queue_capacity (pos 2)) ∷ [])
      (record { workers = pos 1; capacity = pos 2 }) items queue manager_built items_queued
      (omega arith)
