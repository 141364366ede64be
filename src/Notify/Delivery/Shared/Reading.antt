-- ===== src/Notify/Delivery/Shared/Reading.antt =====
-- notify/delivery.go: where targets only read their custom data, it can be taken as a value.
use notifykit.Base.{
  ℕ, zero, suc, ◌≡◌, ◌≢◌, refl, ap, ◌∙◌, Option, none, some, Option-cases, Bool-cases, inl, inr,
  List, [], ◌∷◌, ◌++◌, All, arith, leb, ◌||◌,
}
use notifykit.Text.{Text}
use notifykit.Heap.{
  Heap, entries, clone, clone-Keeps, entries-clone, entries-Keeps, IsKnown, IsKnown-grown,
}
use notifykit.Notify.Error.{Error, DeliveryResult}
use notifykit.Notify.Backoff.{RetryConfig}
use notifykit.Notify.Retry.{
  Runtime, Outcome, Round, Send, done, again, with_retry, retry_loop, wait_for_retry,
  before_attempt, after_attempt, attempt_round, max_attempts, gives_up, zero_result,
}
use notifykit.Notify.Receivers.{Receiver}
use notifykit.Notify.Delivery.{
  Payload, Targets, join, deliver, failure, dispatch_targets, dispatch_receiver,
}
use notifykit.Notify.Delivery.Shared.{
  SharedTargets, with_heap, deliver_with, shared_failure, deliver_all, dispatch_shared,
}

module _ {Value World : Type 0} (rt : Runtime World) (cfg : RetryConfig) (h : Heap Value) where
  -- The same outcome, with the maps beside the world.
  abbrev lift_outcome : Outcome World → Outcome (World × Heap Value)
  lift_outcome o = record {
    result = o.result;
    attempts = o.attempts;
    error = o.error;
    world = (o.world, h);
  }

  abbrev lift_round : Round World → Round (World × Heap Value)
  lift_round (done o) = done (lift_outcome o)
  lift_round (again r e w) = again r e (w, h)

  before_attempt-lift_outcome :
      (attempt : ℕ) (r : DeliveryResult) (w : World)
      → before_attempt (with_heap rt) cfg attempt r (w, h)
        ≡ (let (e, w') = before_attempt rt cfg attempt r w in (e, (w', h)))
  unfolding before_attempt wait_for_retry
  before_attempt-lift_outcome attempt r w = ground arith

  after_attempt-lift_outcome :
      (executed : ℕ) (r : DeliveryResult) (e : Option Error) (w : World)
      → after_attempt (with_heap rt) cfg executed r e (w, h)
        ≡ lift_round (after_attempt rt cfg executed r e w)
  unfolding after_attempt
  after_attempt-lift_outcome executed r none w = refl
  after_attempt-lift_outcome executed r (some e) w = elim (Option-cases (rt.ctx_err w)) [
    | inr (c, over) ↦ rw (over, after_attempt) refl
    | inl live ↦ elim (Bool-cases (leb (max_attempts cfg) executed || gives_up cfg.policy r e)) [
      | inl last ↦ rw (live, after_attempt, last) refl
      | inr more ↦ rw (live, after_attempt, more) refl
    ]
  ]

  module _ (fn : Send World) (fn' : Send (World × Heap Value))
      (same : (w : World) → fn' (w, h) ≡ (let (r, e, w') = fn w in (r, e, (w', h)))) where
    attempt_round-lift_outcome :
        (attempt executed : ℕ) (r : DeliveryResult) (w : World)
        → attempt_round (with_heap rt) cfg fn' attempt executed r (w, h)
          ≡ lift_round (attempt_round rt cfg fn attempt executed r w)
    unfolding attempt_round
    attempt_round-lift_outcome attempt executed r w =
        let (e, w') = before_attempt rt cfg attempt r w in
        let stops = ap (λ x. x.0) (before_attempt-lift_outcome attempt r w) in
        let goes = ap (λ x. x.1) (before_attempt-lift_outcome attempt r w) in
        elim (Option-cases e) [
          | inr (stop, s) ↦ rw (stops, attempt_round, s, goes) refl
          | inl on ↦ elim (Option-cases (rt.ctx_err w')) [
            | inr (c, over) ↦ rw (stops, attempt_round, on, goes, over, goes) refl
            | inl live ↦
                rw (stops, attempt_round, on, goes, live)
                  (ap
                      (λ (x : DeliveryResult × Option Error × (World × Heap Value)).
                        after_attempt (with_heap rt) cfg (suc executed) x.0 x.1 x.2)
                      (ap fn' goes ∙ same w')
                    ∙ after_attempt-lift_outcome (suc executed) (fn w').0 (fn w').1 (fn w').2)
          ]
        ]

    retry_loop-lift_outcome :
        (rounds attempt executed : ℕ) (r : DeliveryResult) (e : Option Error) (w : World)
        → retry_loop (with_heap rt) cfg fn' rounds attempt executed r e (w, h)
          ≡ lift_outcome (retry_loop rt cfg fn rounds attempt executed r e w)
    unfolding retry_loop
    retry_loop-lift_outcome zero attempt executed r e w = refl
    retry_loop-lift_outcome (suc rounds) attempt executed r e w =
        go (attempt_round rt cfg fn attempt executed r w) refl
          (λ r' e' w'. retry_loop-lift_outcome rounds (suc attempt) (suc executed) r' e' w')
      where
        go :
            (x : Round World)
            → attempt_round rt cfg fn attempt executed r w ≡ x
            → ((r' : DeliveryResult) (e' : Option Error) (w' : World)
                → retry_loop
                    (with_heap rt)
                    cfg
                    fn'
                    rounds
                    (suc attempt)
                    (suc executed)
                    r'
                    e'
                    (w', h)
                  ≡ lift_outcome
                      (retry_loop rt cfg fn rounds (suc attempt) (suc executed) r' e' w'))
            → retry_loop (with_heap rt) cfg fn' (suc rounds) attempt executed r e (w, h)
              ≡ lift_outcome (retry_loop rt cfg fn (suc rounds) attempt executed r e w)
        go (done o) x rec = rw (retry_loop, attempt_round-lift_outcome attempt executed r w, x) refl
        go (again r' e' w') x rec =
            rw (retry_loop, attempt_round-lift_outcome attempt executed r w, x)
              (rec r' (some e') w')

    with_retry-lift_outcome :
        (w : World)
        → with_retry (with_heap rt) cfg fn' (w, h) ≡ lift_outcome (with_retry rt cfg fn w)
    unfolding with_retry
    with_retry-lift_outcome w = retry_loop-lift_outcome (max_attempts cfg) 0 0 zero_result none w

module _ {Target Notification Value World : Type 0} (rt : Runtime World)
    (ops : Targets Target Notification Value World) where
  -- Targets that read the map of their payload, and write into none.
  abbrev pub reading : SharedTargets Target Notification Value World
  reading = record {
    type_name = ops.type_name;
    send = λ t payload p m.
        let (r, e, w) = ops.send t (record payload { custom_data = entries m.1 p }) m.0 in
        (r, e, (w, m.1));
  }

  -- The receiver with the entries of its map.
  abbrev pub valued : Receiver Target Value → Heap Value → Option ℕ → Receiver Target Value
  valued receiver h p = record receiver { custom_data = entries h p }

  deliver_with-lift_outcome :
      (receiver : Receiver Target Value) (payload : Payload Notification Value) (t : Target)
      (w : World) (p : Option ℕ) (h : Heap Value)
      → deliver_with rt reading receiver payload t w (p, h)
        ≡ lift_outcome rt receiver.retry h (deliver rt ops (valued receiver h p) payload t w)
  unfolding deliver_with deliver
  deliver_with-lift_outcome receiver payload t w p h =
      with_retry-lift_outcome rt receiver.retry h
        (ops.send t (record payload { receiver = receiver.name; custom_data = entries h p })) _
        (λ w. refl) w

  deliver_all-reads :
      (receiver : Receiver Target Value) (payload : Payload Notification Value) (p : Option ℕ)
      (given : List (Text × Value)) (errs : List Error) (index : ℕ) (ts : List (Option Target))
      (w : World) (h : Heap Value)
      → IsKnown h.next p
      → entries h p ≡ given
      → All (λ t. t ≢ none) ts
      → (errs' : List Error) × (w' : World) × (h' : Heap Value) × (dispatch_targets rt ops
            (record receiver { custom_data = given })
            payload
            errs
            index
            ts
            w
          ≡ some (errs', w'))
        × (deliver_all rt reading (clone p) receiver payload errs index ts (w, h)
            ≡ some (errs', (w', h')))
  unfolding deliver_all dispatch_targets failure shared_failure
  deliver_all-reads receiver payload p given errs index [] w h k e a = (errs, w, h, refl, refl)
  deliver_all-reads receiver payload p given errs index (none ∷ ts) w h k e a = absurd (a.0 refl)
  deliver_all-reads receiver payload p given errs index (some t ∷ ts) w h k e a =
      let (q, h') = clone p h in
      let kept = clone-Keeps p h in
      let o = deliver rt ops (record receiver { custom_data = given }) payload t w in
      let same : deliver_with rt reading receiver payload t w (clone p h)
          ≡ lift_outcome rt receiver.retry h' o =
        deliver_with-lift_outcome receiver payload t w q h'
        ∙ ap
            (λ l.
              lift_outcome rt receiver.retry h'
                (deliver rt ops (record receiver { custom_data = l }) payload t w))
            (entries-clone p h ∙ e) in
      let (errs', w', h'', x, y) =
        deliver_all-reads receiver payload p given
          (errs ++ failure rt ops (record receiver { custom_data = given }) index t o) (suc index)
          ts o.world h' (IsKnown-grown h.next h'.next p kept.grown k)
          (entries-Keeps h.next p k kept ∙ e) a.1 in
      (errs', w', h'', x, rw same y)

  -- For targets that only read their custom data, dispatchReceiver on shared maps returns what it
  -- returns for a receiver with the entries of its map as a value, and leaves the same world.
  pub dispatch_shared-reads :
      (receiver : Receiver Target Value) (payload : Payload Notification Value) (p : Option ℕ)
      (w : World) (h : Heap Value)
      → IsKnown h.next p
      → All (λ t. t ≢ none) receiver.targets
      → (e : Option Error) × (w' : World) × (h' : Heap Value) × (dispatch_receiver rt ops
            (valued receiver h p)
            payload
            w
          ≡ some (e, w'))
        × (dispatch_shared rt reading receiver p payload (w, h) ≡ some (e, (w', h')))
  unfolding dispatch_shared dispatch_receiver
  dispatch_shared-reads receiver payload p w h k a =
      let (errs, w', h', x, y) =
        deliver_all-reads receiver payload p (entries h p) [] 0 receiver.targets w h k refl a in
      (join errs, w', h', rw (x, dispatch_receiver) refl, rw (y, dispatch_shared) refl)
