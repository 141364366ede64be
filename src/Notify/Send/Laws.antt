-- ===== src/Notify/Send/Laws.antt =====
-- What Send of notify/send.go promises.
use notifykit.Base.{
  ◌≡◌, ◌≢◌, refl, subst, inl, inr, ◌↔◌, Bool, true, false, Option, none, some, List, [], ◌∷◌, All,
  arith, Option-cases, Bool-cases,
}
use mathlib.Core.List.Permᴰ
use notifykit.Text.{Text, text_eq}
use notifykit.Notify.Error.{Error}
use notifykit.Notify.Retry.{Runtime}
use notifykit.Notify.Receivers.{
  Receiver, lookup, values, normalize_receivers, validate_receivers, resolve_receivers,
  validate_notification_id,
}
use notifykit.Notify.Receivers.Normal.{IsUsable, validate_receivers_iff}
use notifykit.Notify.Receivers.Resolve.{pick, nub, resolve_receivers-pick}
use notifykit.Notify.Receivers.Order.{resolve_all, All-Permᴰ}
use notifykit.Notify.Delivery.{Targets, join}
use notifykit.Notify.Delivery.Report.{all_outcomes, all_errors, final_world, dispatch-outcomes}
use notifykit.Notify.Send.{
  Notifications, receiver_ids, payload_of, send_resolved, send_normalized, send,
}

module _ {Target Value : Type 0} where
  -- A receiver none of whose targets is nil.
  abbrev pub HasTargets : Receiver Target Value → Type 0
  HasTargets r = All (λ t. t ≢ none) r.targets

  values-HasTargets :
      (m : List (Text × Receiver Target Value)) → All IsUsable m → All HasTargets (values m)
  unfolding values
  values-HasTargets [] h = tt
  values-HasTargets ((k, r) ∷ m) h = (h.0.1, values-HasTargets m h.1)

  lookup-HasTargets :
      (key : Text) (m : List (Text × Receiver Target Value)) (r : Receiver Target Value)
      → All IsUsable m
      → lookup key m ≡ some r
      → HasTargets r
  unfolding lookup
  lookup-HasTargets key [] r h e = cc
  lookup-HasTargets key ((k, s) ∷ m) r h e = elim (Bool-cases (text_eq k key)) [
    | inl hit ↦ let q : s ≡ r = ground arith in subst (λ t. HasTargets t) q h.0.1
    | inr miss ↦ lookup-HasTargets key m r h.1 (rw miss at e)
  ]

  pick-HasTargets :
      (m : List (Text × Receiver Target Value)) (ids : List Text)
      → All IsUsable m
      → All HasTargets (pick m ids)
  unfolding pick
  pick-HasTargets m [] h = tt
  pick-HasTargets m (id ∷ ids) h = elim (Option-cases (lookup id m)) [
    | inl missing ↦ rw (missing, pick) (pick-HasTargets m ids h)
    | inr (r, hit) ↦ rw (hit, pick) (lookup-HasTargets id m r h hit, pick-HasTargets m ids h)
  ]

  resolved-HasTargets :
      (m : List (Text × Receiver Target Value)) (ids : List Text)
      → All IsUsable m
      → All HasTargets (resolve_receivers m ids)
  resolved-HasTargets m [] h =
      All-Permᴰ HasTargets (Permᴰ.symm (resolve_all m).0) (values-HasTargets m h)
  resolved-HasTargets m (id ∷ ids) h =
      rw (resolve_receivers-pick m (id ∷ ids) (λ e. cc)) (pick-HasTargets m (nub (id ∷ ids)) h)

validate_notification_id_iff : (id : Text) → (validate_notification_id id ≡ none) ↔ (id ≢ [])
unfolding validate_notification_id
validate_notification_id_iff [] = (λ h. cc, λ h. absurd (h refl))
validate_notification_id_iff (c ∷ id) = (λ h e. cc, λ h. refl)

empty_of_bad : (id : Text) (e : Error) → validate_notification_id id ≡ some e → id ≡ []
unfolding validate_notification_id
empty_of_bad [] e h = refl
empty_of_bad (c ∷ id) e h = cc

module _ {Target Notification Value World : Type 0} (rt : Runtime World)
    (ops : Targets Target Notification Value World) (ns : Notifications Notification)
    (receivers : List (Text × Option (Receiver Target Value))) (w : World) where
  -- The receivers that a notification goes to.
  abbrev pub addressed : Notification → List (Receiver Target Value)
  addressed n = resolve_receivers (normalize_receivers receivers) (receiver_ids (ns.router n))

  -- Why Send may refuse.
  pub data Refuses (nil_ctx : Bool) : Option Notification → Type 0 where
    no_context : {n : Option Notification} → nil_ctx ≡ true → Refuses nil_ctx n
    no_notification : {n : Option Notification} → n ≡ none → Refuses nil_ctx n
    no_id : {n : Notification} → ns.id n ≡ [] → Refuses nil_ctx (some n)
    unusable :
        {n : Notification}
        → ¬ All IsUsable (normalize_receivers receivers)
        → Refuses nil_ctx (some n)
    unaddressed : {n : Notification} → addressed n ≡ [] → Refuses nil_ctx (some n)

  -- What Send may do: refuse with an error and touch nothing, or deliver to every target of every
  -- addressed receiver and report the failures.
  pub data Sends (nil_ctx : Bool) (n : Option Notification) (x : Option (Option Error × World))
      : Type 0 where
    refused : (e : Error) → Refuses nil_ctx n → x ≡ some (some e, w) → Sends nil_ctx n x
    sent :
        (m : Notification)
        → nil_ctx ≡ false
        → n ≡ some m
        → ns.id m ≢ []
        → All IsUsable (normalize_receivers receivers)
        → addressed m ≢ []
        → (let oss = all_outcomes rt ops (payload_of rt ops ns m) (addressed m) w in
            x ≡ some (join (all_errors rt ops (addressed m) oss), final_world rt ops w oss))
        → Sends nil_ctx n x

  send_resolved-Sends :
      (n : Notification) (rs : List (Receiver Target Value))
      → addressed n ≡ rs
      → ns.id n ≢ []
      → All IsUsable (normalize_receivers receivers)
      → Sends false (some n) (send_resolved rt ops ns n rs w)
  unfolding send_resolved
  send_resolved-Sends n [] e i u = refused _ (unaddressed e) refl
  send_resolved-Sends n (r ∷ rs) e i u =
      sent n refl refl i u (λ q. cc)
        (rw e (
          dispatch-outcomes rt ops (payload_of rt ops ns n) (r ∷ rs) w
            (subst (λ t. All HasTargets t) e (resolved-HasTargets _ _ u))))

  send_normalized-Sends :
      (n : Notification)
      → ns.id n ≢ []
      → Sends false (some n) (send_normalized rt ops ns n (normalize_receivers receivers) w)
  unfolding send_normalized
  send_normalized-Sends n i =
      let u = validate_receivers_iff (normalize_receivers receivers) in
      elim (Option-cases (validate_receivers (normalize_receivers receivers))) [
        | inr (e, bad) ↦
            rw (bad, send_normalized) (refused e (unusable (λ all. cc (bad, u.1 all))) refl)
        | inl good ↦
            rw (good, send_normalized) (send_resolved-Sends n (addressed n) refl i (u.0 good))
      ]

  -- Send never panics. Either it refuses, for a nil context, a nil notification, an empty
  -- notification ID, a receiver that has no target or a nil one, or for want of an addressed
  -- receiver, and then it returns an error and calls no target; or none of these is the case and it
  -- delivers to every target of every addressed receiver and returns just their failures.
  pub send-Sends :
      (nil_ctx : Bool) (n : Option Notification)
      → Sends nil_ctx n (send rt ops ns nil_ctx n receivers w)
  unfolding send
  send-Sends true n = refused _ (no_context refl) refl
  send-Sends false none = refused _ (no_notification refl) refl
  send-Sends false (some n) =
      let v = validate_notification_id_iff (ns.id n) in
      elim (Option-cases (validate_notification_id (ns.id n))) [
        | inr (e, bad) ↦ rw (bad, send) (refused e (no_id (empty_of_bad (ns.id n) e bad)) refl)
        | inl good ↦ rw (good, send) (send_normalized-Sends n (v.0 good))
      ]
