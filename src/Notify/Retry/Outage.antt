-- ===== src/Notify/Retry/Outage.antt =====
-- withRetry of notify/retry.go through an outage: failures that the policy retries, then success.
use notifykit.Base.{
  ℕ, zero, suc, ◌+◌, ◌≤◌, ◌<◌, ◌≡◌, refl, ◌⊎◌, ℤ, pos, true, false, none, some, arith, leb, ltb,
  ltb_ℤ, Bool-cases, inl, inr,
}
use notifykit.Notify.Error.{Error, DeliveryResult}
use notifykit.Notify.Backoff.{RetryConfig, retry_delay}
use notifykit.Notify.Retry.{
  Runtime, Send, Outcome, max_attempts, gives_up, before_attempt, after_attempt, with_retry,
}
use notifykit.Notify.Retry.Rule.{Leaves, attempt_round-cases, with_retry-Post}

-- `S k w` says that `k` more calls fail from the world `w` on, each in a way that the policy
-- retries, and that the one after them succeeds, while the context stays live and every timer fires.
pub record IsOutage {World : Type 0} (rt : Runtime World) (cfg : RetryConfig) (fn : Send World)
    (S : ℕ → World → Type 0) : Type 0 where
  pub live : (k : ℕ) (w : World) → S k w → rt.ctx_err w ≡ none
  pub fires : (k : ℕ) (w : World) (d : ℤ) → S k w → (rt.await d w).0 ≡ true
  pub waits : (k : ℕ) (w : World) (d : ℤ) → S k w → S k (rt.await d w).1
  pub fails :
      (k : ℕ) (w : World)
      → S (suc k) w
      → (e : Error) × ((fn w).1 ≡ some e) × (gives_up cfg.policy (fn w).0 e ≡ false)
  pub goes_on : (k : ℕ) (w : World) → S (suc k) w → S k (fn w).2
  pub recovers : (w : World) → S 0 w → (fn w).1 ≡ none

-- It recovers where the failures are fewer than the attempts, and gives up after the last attempt
-- where they are not.
abbrev pub Survives : {World : Type 0} → RetryConfig → ℕ → Outcome World → Type 0
Survives cfg k o =
    ((k < max_attempts cfg) × (o.error ≡ none) × (o.attempts ≡ k + 1))
    ⊎ ((max_attempts cfg ≤ k)
        × ((e : Error) × (o.error ≡ some e))
        × (o.attempts ≡ max_attempts cfg))

module _ {World : Type 0} (rt : Runtime World) (cfg : RetryConfig) (fn : Send World)
    (S : ℕ → World → Type 0) (out : IsOutage rt cfg fn S) where
  abbrev Left : ℕ → ℕ → DeliveryResult → World → Type 0
  Left k executed r w = (j : ℕ) × (j + executed ≡ k) × S j w

  before_attempt-S :
      (j attempt : ℕ) (r : DeliveryResult) (w : World)
      → S j w
      → ((before_attempt rt cfg attempt r w).0 ≡ none) × S j (before_attempt rt cfg attempt r w).1
  unfolding before_attempt
  before_attempt-S j attempt r w s = elim (Bool-cases (ltb 0 attempt)) [
    | inr first ↦ rw first (refl, s)
    | inl later ↦
        rw later (elim (Bool-cases (ltb_ℤ (pos 0) (retry_delay (rt.random w) cfg attempt r))) [
          | inr now ↦ rw now (refl, s)
          | inl wait ↦ rw wait (
            ground (arith, out.fires j w (retry_delay (rt.random w) cfg attempt r) s),
            out.waits j w (retry_delay (rt.random w) cfg attempt r) s,
          )
        ])
  ]

  after_attempt-Survives :
      (k j executed : ℕ) (w : World)
      → executed < max_attempts cfg
      → j + executed ≡ k
      → S j w
      → Leaves
          (Left k)
          (Survives cfg k)
          executed
          (after_attempt rt cfg (suc executed) (fn w).0 (fn w).1 (fn w).2)
  unfolding after_attempt
  after_attempt-Survives k zero executed w l n s =
      rw (out.recovers w s) (inl (omega arith, refl, omega arith))
  after_attempt-Survives k (suc j) executed w l n s =
      let (e, f, g) = out.fails j w s in
      rw (f, out.live j (fn w).2 (out.goes_on j w s), g, after_attempt)
        (elim (Bool-cases (leb (max_attempts cfg) (suc executed))) [
          | inl last ↦ rw last (inr (ground arith, (e, refl), ground arith))
          | inr more ↦ rw more (j, omega arith, out.goes_on j w s)
        ])

  -- Through an outage of `k` failures that the policy retries, while the context stays live and every
  -- timer fires, withRetry succeeds at attempt `k` + 1 if that many attempts are allowed, and
  -- otherwise returns an error after the last attempt allowed.
  pub with_retry-Survives : (k : ℕ) (w : World) → S k w → Survives cfg k (with_retry rt cfg fn w)
  with_retry-Survives k w s =
      with_retry-Post rt cfg fn (Left k) (Survives cfg k)
        (λ executed r w' l left.
          let (j, n, s') = left in
          let b = before_attempt-S j executed r w' s' in
          attempt_round-cases rt cfg fn (Leaves (Left k) (Survives cfg k) executed) executed r w'
            (λ e h. cc (b.0)) (λ e h c. cc (out.live j _ b.1))
            (λ h c. after_attempt-Survives k j executed _ l n b.1))
        w (k, omega arith, s)
