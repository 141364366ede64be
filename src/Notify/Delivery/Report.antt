-- ===== src/Notify/Delivery/Report.antt =====
-- What a dispatch of notify/delivery.go delivers and reports: every target of every receiver is
-- tried, in order, whatever became of those before it.
use mathlib.Core.List.{append-nil, append_assoc}
use notifykit.Base.{
  Option-cases, inl, inr, ℕ, suc, ◌≡◌, ◌≢◌, refl, ap, ◌∙◌, sym, ◌↔◌, Option, none, some, List, [],
  ◌∷◌, ◌++◌, All,
}
use notifykit.Notify.Error.{Error, delivery_error}
use notifykit.Notify.Retry.{Runtime, Outcome, with_retry}
use notifykit.Notify.Receivers.{Receiver}
use notifykit.Notify.Delivery.{
  Payload, Targets, join, deliver, failure, dispatch_targets, dispatch_receiver, dispatch_receivers,
  dispatch, appended,
}

-- The world after the last of the outcomes.
abbrev pub last_world : {World : Type 0} → World → List (Outcome World) → World
last_world w [] = w
last_world w (o ∷ os) = last_world o.world os

-- The targets that are not nil.
abbrev pub actual {ℓ} : {Target : Type ℓ} → List (Option Target) → List Target
actual [] = []
actual (none ∷ ts) = actual ts
actual (some t ∷ ts) = t ∷ actual ts

present : {Target : Type 0} → List Target → List (Option Target)
present [] = []
present (t ∷ ts) = some t ∷ present ts

present-actual :
    {Target : Type 0} (ts : List (Option Target))
    → All (λ t. t ≢ none) ts
    → present (actual ts) ≡ ts
unfolding present
present-actual [] h = refl
present-actual (none ∷ ts) h = absurd (h.0 refl)
present-actual (some t ∷ ts) h = ap (◌∷◌ (some t)) (present-actual ts h.1)

module _ {Target Notification Value World : Type 0} (rt : Runtime World)
    (ops : Targets Target Notification Value World) where
  -- The outcomes of withRetry for the targets one after the other, each with the receiver's name and
  -- custom data.
  unfoldable pub outcomes :
      Receiver Target Value
      → Payload Notification Value
      → List Target
      → World
      → List (Outcome World)
  outcomes receiver payload [] w = []
  outcomes receiver payload (t ∷ ts) w =
      let given = record payload { receiver = receiver.name; custom_data = receiver.custom_data } in
      let o = with_retry rt receiver.retry (ops.send t given) w in
      o ∷ outcomes receiver payload ts o.world

  -- A DeliveryError for each failed outcome, with the ID of the receiver, the type and the index of the
  -- target, and the attempts, the last result and the error of the outcome.
  unfoldable pub failures :
      Receiver Target Value → ℕ → List Target → List (Outcome World) → List Error
  failures receiver index [] os = []
  failures receiver index (t ∷ ts) [] = []
  failures receiver index (t ∷ ts) (o ∷ os) =
      let rest = failures receiver (suc index) ts os in
      elim o.error [
        | none ↦ rest
        | some e ↦ delivery_error receiver.id (ops.type_name t) index o.attempts o.result e ∷ rest
      ]

  failures-failure :
      (receiver : Receiver Target Value) (index : ℕ) (t : Target) (ts : List Target)
      (o : Outcome World) (os : List (Outcome World))
      → failures receiver index (t ∷ ts) (o ∷ os)
        ≡ failure rt ops receiver index t o ++ failures receiver (suc index) ts os
  unfolding failures failure
  failures-failure receiver index t ts o os = elim (Option-cases o.error) [
    | inl good ↦ rw good refl
    | inr (e, bad) ↦ rw bad refl
  ]

  dispatch_targets-outcomes :
      (receiver : Receiver Target Value) (payload : Payload Notification Value) (errs : List Error)
      (index : ℕ) (ts : List Target) (w : World)
      → dispatch_targets rt ops receiver payload errs index (present ts) w ≡ (
          let os = outcomes receiver payload ts w in
          some (errs ++ failures receiver index ts os, last_world w os))
  unfolding dispatch_targets outcomes deliver present
  dispatch_targets-outcomes receiver payload errs index [] w = unfold failures in rw append-nil
  dispatch_targets-outcomes receiver payload errs index (t ∷ ts) w =
      let o = deliver rt ops receiver payload t w in
      dispatch_targets-outcomes receiver payload (errs ++ failure rt ops receiver index t o)
        (suc index) ts o.world
      ∙ ap (λ es. some (es, last_world o.world (outcomes receiver payload ts o.world)))
          (append_assoc errs _ _
            ∙ ap (◌++◌ errs) (
                sym
                  (failures-failure receiver index t ts o (outcomes receiver payload ts o.world))))

  -- The outcomes of one receiver, and the error that reports them.
  abbrev pub receiver_outcomes :
      Payload Notification Value → Receiver Target Value → World → List (Outcome World)
  receiver_outcomes payload r w = outcomes r payload (actual r.targets) w

  abbrev pub receiver_error : Receiver Target Value → List (Outcome World) → Option Error
  receiver_error r os = join (failures r 0 (actual r.targets) os)

  dispatch_receiver-outcomes :
      (payload : Payload Notification Value) (r : Receiver Target Value) (w : World)
      → All (λ t. t ≢ none) r.targets
      → dispatch_receiver rt ops r payload w
        ≡ (let os = receiver_outcomes payload r w in some (receiver_error r os, last_world w os))
  unfolding dispatch_receiver
  dispatch_receiver-outcomes payload r w h =
      let e =
        ap (λ ts. dispatch_targets rt ops r payload [] 0 ts w) (sym (present-actual r.targets h))
        ∙ dispatch_targets-outcomes r payload [] 0 (actual r.targets) w in
      rw (e, dispatch_receiver)

  -- The outcomes of all receivers, one receiver after the other.
  unfoldable pub all_outcomes :
      Payload Notification Value
      → List (Receiver Target Value)
      → World
      → List (List (Outcome World))
  all_outcomes payload [] w = []
  all_outcomes payload (r ∷ rs) w =
      let os = receiver_outcomes payload r w in os ∷ all_outcomes payload rs (last_world w os)

  unfoldable pub all_errors :
      List (Receiver Target Value) → List (List (Outcome World)) → List Error
  all_errors [] oss = []
  all_errors (r ∷ rs) [] = []
  all_errors (r ∷ rs) (os ∷ oss) = appended [] (receiver_error r os) ++ all_errors rs oss

  abbrev pub final_world : World → List (List (Outcome World)) → World
  final_world w [] = w
  final_world w (os ∷ oss) = final_world (last_world w os) oss

  appended_lem : (errs : List Error) (e : Option Error) → appended errs e ≡ errs ++ appended [] e
  appended_lem errs none = sym (append-nil errs)
  appended_lem errs (some e) = refl

  dispatch_receivers-outcomes :
      (payload : Payload Notification Value) (errs : List Error) (rs : List (Receiver Target Value))
      (w : World)
      → All (λ r. All (λ t. t ≢ none) r.targets) rs
      → dispatch_receivers rt ops payload errs rs w ≡ (
          let oss = all_outcomes payload rs w in
          some (errs ++ all_errors rs oss, final_world w oss))
  unfolding dispatch_receivers all_outcomes all_errors
  dispatch_receivers-outcomes payload errs [] w h = rw append-nil
  dispatch_receivers-outcomes payload errs (r ∷ rs) w h =
      let os = receiver_outcomes payload r w in
      let oss = all_outcomes payload rs (last_world w os) in
      rw (dispatch_receiver-outcomes payload r w h.0, dispatch_receivers)
        (dispatch_receivers-outcomes payload (appended errs (receiver_error r os)) rs
            (last_world w os) h.1
          ∙ ap (λ es. some (es ++ all_errors rs oss, final_world (last_world w os) oss))
              (appended_lem errs (receiver_error r os))
          ∙ ap (λ es. some (es, final_world (last_world w os) oss)) (append_assoc errs _ _))

  -- Every target of every receiver is delivered to once, in order, whatever became of those before
  -- it; the error joins, for each receiver with a failure, the failures of just the targets that
  -- failed, with their index, type, attempts and last result. No target is nil.
  pub dispatch-outcomes :
      (payload : Payload Notification Value) (rs : List (Receiver Target Value)) (w : World)
      → All (λ r. All (λ t. t ≢ none) r.targets) rs
      → dispatch rt ops payload rs w ≡ (
          let oss = all_outcomes payload rs w in some (join (all_errors rs oss), final_world w oss))
  unfolding dispatch
  dispatch-outcomes payload rs w h =
      let e = dispatch_receivers-outcomes payload [] rs w h in rw (e, dispatch)

  abbrev pub IsDelivered : Outcome World → Type 0
  IsDelivered o = o.error ≡ none

  failures_iff :
      (r : Receiver Target Value) (payload : Payload Notification Value) (index : ℕ)
      (ts : List Target) (w : World)
      → (failures r index ts (outcomes r payload ts w) ≡ [])
        ↔ All IsDelivered (outcomes r payload ts w)
  unfolding failures outcomes deliver
  failures_iff r payload index [] w = (λ h. tt, λ h. refl)
  failures_iff r payload index (t ∷ ts) w =
      let o = deliver rt ops r payload t w in
      let rest = failures_iff r payload (suc index) ts o.world in
      elim (Option-cases o.error) [
        | inl good ↦ rw good (λ h. (refl, rest.0 h), λ h. rest.1 h.1)
        | inr (e, bad) ↦ rw bad (λ h. cc, λ h. cc (h.0))
      ]

  pub join_iff : (es : List Error) → (join es ≡ none) ↔ (es ≡ [])
  unfolding join
  join_iff [] = (λ h. refl, λ h. refl)
  join_iff (e ∷ es) = (λ h. cc, λ h. cc)

  pub all_errors_iff :
      (payload : Payload Notification Value) (rs : List (Receiver Target Value)) (w : World)
      → (all_errors rs (all_outcomes payload rs w) ≡ [])
        ↔ All (All IsDelivered) (all_outcomes payload rs w)
  unfolding all_errors all_outcomes
  all_errors_iff payload [] w = (λ h. tt, λ h. refl)
  all_errors_iff payload (r ∷ rs) w =
      let os = receiver_outcomes payload r w in
      let rest = all_errors_iff payload rs (last_world w os) in
      let first = failures_iff r payload 0 (actual r.targets) w in
      elim (Option-cases (receiver_error r os)) [
        | inl good ↦ rw good (λ h. (first.0 ((join_iff _).0 good), rest.0 h), λ h. rest.1 h.1)
        | inr (e, bad) ↦ rw bad (
          λ h. cc,
          λ h. cc (bad, (join_iff (failures r 0 (actual r.targets) os)).1 (first.1 h.0)),
        )
      ]

  same_error :
      (e e' : Option Error) (w : World)
      → ◌≡◌ {A = Option (Option Error × World)} (some (e, w)) (some (e', w))
      → e ≡ e'
  same_error e e' w h = cc

  -- A dispatch returns no error just when every target of every receiver was delivered to. No target
  -- is nil.
  dispatch_iff :
      (payload : Payload Notification Value) (rs : List (Receiver Target Value)) (w : World)
      → All (λ r. All (λ t. t ≢ none) r.targets) rs
      → (dispatch rt ops payload rs w ≡ some (none, final_world w (all_outcomes payload rs w)))
        ↔ All (All IsDelivered) (all_outcomes payload rs w)
  dispatch_iff payload rs w h =
      let e = dispatch-outcomes payload rs w h in
      let w' = final_world w (all_outcomes payload rs w) in
      (
        λ k. (all_errors_iff payload rs w).0 ((join_iff _).0 (same_error _ none w' (sym e ∙ k))),
        λ k. e ∙ ap (λ t. some (t, w')) ((join_iff _).1 ((all_errors_iff payload rs w).1 k)),
      )
