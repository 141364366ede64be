-- ===== src/Notify/Dispatcher/Completions.antt =====
-- notify/manager.go with notify/dispatcher.go and notify/send.go: what becomes of each notification
-- that was accepted.
use mathlib.Core.List.{Memᴰ}
use notifykit.Base.{
  ℕ, ◌≡◌, refl, ◌∙◌, sym, subst, ◌⊎◌, inl, inr, true, false, Option, none, some, List, [], ◌∷◌,
  ◌++◌, All, All-split, arith,
}
use notifykit.Text.{Text}
use notifykit.Notify.Error.{manager_stopped}
use notifykit.Notify.Retry.{Runtime}
use notifykit.Notify.Receivers.{Receiver, validate_notification_id}
use notifykit.Notify.Delivery.{Targets}
use notifykit.Notify.Store.{count}
use notifykit.Notify.Send.{Notifications, send}
use notifykit.Notify.Manager.{Manager, Completion, runs, discard}
use notifykit.Notify.Manager
use notifykit.Notify.Manager.Steps.{System, Step, Reach, completed_ids}
use notifykit.Notify.Manager.Safety.{done_complete}
use notifykit.Notify.Manager.Content.{Holds, admits, admitted, Reach-Holds}
use notifykit.Notify.Dispatcher.{
  ManagerConfig, built, build_manager, dispatch_queued, dispatch_queued-send,
}

-- Each element is in the list, and has the property that all have.
All-Memᴰ {ℓ κ} :
    {A : Type ℓ} (P : A → Type κ) (whole l : List A)
    → ((x : A) → Memᴰ x l → Memᴰ x whole)
    → All P l
    → All (λ x. Memᴰ x whole × P x) l
All-Memᴰ P whole [] f h = tt
All-Memᴰ P whole (x ∷ l) f (p, h) =
    ((f x (Memᴰ.head refl), p), All-Memᴰ P whole l (λ y m. f y (Memᴰ.tail m)) h)

discard_completions :
    {Notification : Type 0} (id : ℕ) (m m' : Manager Notification) (cs : List Completion)
    → discard id m ≡ runs (m', cs)
    → (cs ≡ []) ⊎ (cs ≡ (id, some manager_stopped) ∷ [])
unfolding Manager.discard
discard_completions id m m' cs h = ground arith

module _ {Target Notification Value World : Type 0} (rt : Runtime World)
    (ops : Targets Target Notification Value World) (ns : Notifications Notification)
    (receivers : List (Text × Option (Receiver Target Value))) where
  -- The completion is the refusal of a manager that was stopped, or what Send returns, in some world,
  -- for the notification of the Enqueue call that returned the ID.
  abbrev pub IsSettled : List (ℕ × Notification) → Completion → Type 0
  IsSettled enqueued (id, e) =
      (e ≡ some manager_stopped)
      ⊎ ((n : Notification) × Memᴰ (id, n) enqueued
          × (w : World) × (w' : World) × (send rt ops ns false (some n) receivers w ≡ some (e, w')))

  module _ (capacity workers : ℕ) (stored : List (Text × Receiver Target Value)) where
    -- A worker that completes a delivery reports the outcome that dispatch has, in some world.
    abbrev pub Delivers : {s t : System Notification} → Step capacity workers s t → Type 0
    Delivers (Step.complete xs ys id n e h) =
        (w : World) × (w' : World) × (dispatch_queued rt ops ns n stored w ≡ some (e, w'))
    Delivers _ = Unit

    abbrev pub AllDeliver : {s : System Notification} → Reach capacity workers s → Type 0
    AllDeliver Reach.here = Unit
    AllDeliver (Reach.next r x) = Delivers x × AllDeliver r

    module _ (opts : List (Option (ManagerConfig → ManagerConfig))) (cfg : ManagerConfig)
        (b : build_manager opts receivers ≡ built cfg stored)
        (enqueued : List (ℕ × Notification)) where
      -- An Enqueue call that returned an ID, whose notification has an ID.
      abbrev IsEnqueued : ℕ × Notification → Type 0
      IsEnqueued (id, n) = Memᴰ (id, n) enqueued × (validate_notification_id (ns.id n) ≡ none)

      Step-IsSettled :
          {s t : System Notification} (x : Step capacity workers s t)
          → Delivers x
          → Holds IsEnqueued s
          → All (IsSettled enqueued) s.completed
          → All (IsSettled enqueued) t.completed
      Step-IsSettled (Step.reserve id n m f x) d h p = p
      Step-IsSettled (Step.admit xs ys id n err m e a x) d h p = p
      Step-IsSettled (Step.start m x) d h p = p
      Step-IsSettled (Step.cancel c) d h p = p
      Step-IsSettled (Step.stop drain m sp x) d h p = p
      Step-IsSettled (Step.receive k id rest i x) d h p = p
      Step-IsSettled (Step.begin xs ys id m none f x) d h p = p
      Step-IsSettled (Step.begin xs ys id m (some n) f x) d h p = p
      Step-IsSettled {s} (Step.complete xs ys id n e x) (w, w', out) h p =
          let (before, (here, after)) =
            All-split IsEnqueued xs ((id, n) ∷ ys) (subst (All IsEnqueued) x h.on_delivering) in
          let (c, k, same) =
            dispatch_queued-send rt ops ns opts receivers cfg stored n w b here.1 in
          (inr (n, here.0, w, w', same ∙ out), p)
      Step-IsSettled (Step.exit k i x) d h p = p
      Step-IsSettled (Step.pass k m sp w i f q x) d h p = p
      Step-IsSettled {s} (Step.discard k id rest m cs q b x) d h p =
          elim (discard_completions id (record (s.manager) { mailbox = rest }) m cs x) [
            | inl nobody ↦ subst (λ l. All (IsSettled enqueued) (l ++ s.completed)) (sym nobody) p
            | inr one ↦
                subst (λ l. All (IsSettled enqueued) (l ++ s.completed)) (sym one) (inl refl, p)
          ]
      Step-IsSettled (Step.finish k m q e c x) d h p = p

      Reach-IsSettled :
          {s : System Notification} (r : Reach capacity workers s)
          → AllDeliver r
          → All IsEnqueued (admitted capacity workers r)
          → All (IsSettled enqueued) s.completed
      Reach-IsSettled Reach.here d p = tt
      Reach-IsSettled (Reach.next r x) (d, ds) p =
          let (now, before) = All-split IsEnqueued (admits capacity workers x) _ p in
          Step-IsSettled x d (Reach-Holds capacity workers IsEnqueued r before)
            (Reach-IsSettled r ds before)

    -- At any moment a completion is either ErrManagerStopped, or what Send returns, in some world, for
    -- the notification of the Enqueue call that returned the ID.
    pub completed_so_far-IsSettled :
        (opts : List (Option (ManagerConfig → ManagerConfig))) (cfg : ManagerConfig)
        → build_manager opts receivers ≡ built cfg stored
        → {s : System Notification} (r : Reach capacity workers s) → AllDeliver r
        → All
            (λ (q : ℕ × Notification). validate_notification_id (ns.id q.1) ≡ none)
            (admitted capacity workers r)
        → All (IsSettled (admitted capacity workers r)) s.completed
    completed_so_far-IsSettled opts cfg b r d v =
        Reach-IsSettled opts cfg b (admitted capacity workers r) r d
          (All-Memᴰ _ (admitted capacity workers r) (admitted capacity workers r) (λ x m. m) v)

    -- When the channel done is closed, each ID that Enqueue returned has been completed just once, and
    -- no other; and a completion is either ErrManagerStopped, or what Send returns, in some world, for
    -- the notification of the Enqueue call that returned the ID. The notifications have valid IDs,
    -- which Enqueue checks, and a worker reports what its dispatch gives.
    pub completed-IsSettled :
        (opts : List (Option (ManagerConfig → ManagerConfig))) (cfg : ManagerConfig)
        → build_manager opts receivers ≡ built cfg stored
        → {s : System Notification} (r : Reach capacity workers s) → AllDeliver r
        → All
            (λ (q : ℕ × Notification). validate_notification_id (ns.id q.1) ≡ none)
            (admitted capacity workers r)
        → s.manager.done_closed ≡ true
        → All (IsSettled (admitted capacity workers r)) s.completed
          × ((a : ℕ) → count a (completed_ids s.completed) ≡ count a s.accepted)
    completed-IsSettled opts cfg b r d v over = (
      completed_so_far-IsSettled opts cfg b r d v,
      λ a. ((done_complete capacity workers r over).2 a).1,
    )
