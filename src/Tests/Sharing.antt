-- ===== src/Tests/Sharing.antt =====
-- Deliveries with shared custom data, and targets with shared headers, at concrete inputs.
use notifykit.Base.{ℕ, ◌+◌, ◌≤◌, ◌<◌, ◌≡◌, ◌≢◌, refl, Option, none, some, List, [], ◌∷◌, All, arith}
use notifykit.Text.{Text, bytes}
use notifykit.Heap.{Heap, write, Keeps, IsNew}
use notifykit.Notify.Error.{Error, DeliveryResult}
use notifykit.Notify.Delivery.{Payload, join, dispatch_receiver}
use notifykit.Notify.Delivery.Shared.{SharedTargets, deliver_all, dispatch_shared}
use notifykit.Notify.Delivery.Shared.Isolation.{content, hand, IsConfined, dispatch_shared-isolated}
use notifykit.Notify.Delivery.Shared.Reading.{reading, valued, dispatch_shared-reads}
use notifykit.Targets.Sharing.{SharedOption}
use notifykit.Targets.Sharing.Refines.{view}
use notifykit.Targets.Email.Config.{with_name, new_from_target}
use notifykit.Targets.Email.Config.Sharing.{
  email_headers, settings_of, email_from_shared, email_from_shared-Refines,
}
use notifykit.Targets.Email.Config
use notifykit.Tests.Receivers.{refused, answer, counting, live, ops_team, payload}
use notifykit.Tests.Email.{target}

-- A target that fails, and that leaves a mark in its custom data.
abbrev marks :
    ℕ → Payload ℕ ℕ → Option ℕ → ℕ × Heap ℕ → DeliveryResult × Option Error × (ℕ × Heap ℕ)
marks t given none (w, h) = (answer, some refused, (w + 1, h))
marks t given (some p) (w, h) =
    (answer, some refused, (w + 1, write p ((bytes "seen", t) ∷ h.cell p) h))

abbrev marking : SharedTargets ℕ ℕ ℕ ℕ
marking = record { type_name = λ t. bytes "test"; send = marks }

marks_grows :
    (t : ℕ) (given : Payload ℕ ℕ) (p : Option ℕ) (w : ℕ) (h : Heap ℕ)
    → h.next ≤ (marks t given p (w, h)).2.1.next
unfolding write
marks_grows t given none w h = omega arith
marks_grows t given (some p) w h = omega arith

marks_leaves :
    (t : ℕ) (given : Payload ℕ ℕ) (p : Option ℕ) (w : ℕ) (h : Heap ℕ) (q : ℕ)
    → q < h.next
    → p ≢ some q
    → (marks t given p (w, h)).2.1.cell q ≡ h.cell q
unfolding write
marks_leaves t given none w h q l n = refl
marks_leaves t given (some p) w h q l n = ground arith

marking-IsConfined : IsConfined live marking
marking-IsConfined = record { grows = marks_grows; leaves = marks_leaves }

-- One map, with one entry.
abbrev one_map : Heap ℕ
one_map = record { next = 1; cell = λ p. (bytes "team", 9) ∷ [] }

team_present : All (λ (t : Option ℕ). t ≢ none) ops_team.targets
team_present = (λ e. cc, (λ e. cc, tt))

dispatch_shared-isolated_example :
    (errs : List Error) × (m : ℕ × Heap ℕ) × (dispatch_shared live marking ops_team
        (some 0)
        payload
        (0, one_map)
      ≡ some (join errs, m))
    × (deliver_all live marking
          (hand (content one_map (some 0)))
          ops_team
          payload
          []
          0
          ops_team.targets
          (0, one_map)
        ≡ some (errs, m))
    × Keeps 1 one_map m.1
dispatch_shared-isolated_example =
    dispatch_shared-isolated live marking marking-IsConfined ops_team payload (some 0) 0 one_map
      (omega arith) team_present

dispatch_shared-reads_example :
    (e : Option Error) × (w : ℕ) × (h : Heap ℕ) × (dispatch_receiver live counting
        (valued live counting ops_team one_map (some 0))
        payload
        0
      ≡ some (e, w))
    × (dispatch_shared live (reading live counting) ops_team (some 0) payload (0, one_map)
        ≡ some (e, (w, h)))
dispatch_shared-reads_example =
    dispatch_shared-reads live counting ops_team payload (some 0) 0 one_map (omega arith)
      team_present

-- The maps of a target and of an option.
abbrev two_maps : Heap Text
two_maps = record { next = 2; cell = λ p. (bytes "X-Id", bytes "7") ∷ [] }

abbrev options : List (Option (SharedOption (Config.Email Text)))
options =
    some (SharedOption.copies (some 1))
    ∷ none
    ∷ some (SharedOption.sets (with_name (bytes "alerts")))
    ∷ []

name_apart :
    (m : List (Text × Text)) (t : Config.Email Text)
    → record (with_name (bytes "alerts") t) { headers = m }
      ≡ with_name (bytes "alerts") (record t { headers = m })
unfolding with_name
name_apart m t = refl

email_from_shared-Refines_example :
    let s = email_from_shared (target, some 0, two_maps) options in
    Keeps 2 two_maps s.2
    × IsNew 2 s.1
    × (view email_headers s
        ≡ new_from_target
            (view email_headers (target, some 0, two_maps))
            (settings_of two_maps options))
email_from_shared-Refines_example =
    email_from_shared-Refines two_maps target (some 0) options (omega arith, (tt, (name_apart, tt)))
