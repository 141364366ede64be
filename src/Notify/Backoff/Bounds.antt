-- ===== src/Notify/Backoff/Bounds.antt =====
-- Bounds of the waits of notify/retry.go.
use native.Mathlib.Nat.{pow-le-pow_right}
use notifykit.Base.{
  ℕ, ◌-◌, ◌*◌, ◌^◌, ◌≤◌, ◌<◌, min, ◌≡◌, ℤ, pos, pos_part, neg_part, ◌||◌, ◌≤ℤ◌, ◌<ℤ◌, true, false,
  arith, max_int64, leb_ℤ, leb, max_ℤ, inl, inr, Bool-cases, if◌then◌else◌,
}
use notifykit.Notify.Error.{DeliveryResult}
use notifykit.Notify.Backoff.{RetryConfig, retry_backoff, retry_delay}
use notifykit.Notify.Backoff.Closed.{capped, le-mul_pos, pow-pos, retry_backoff_closed}

-- What rand.Int64N promises for a positive bound.
abbrev pub IsBelow : (ℤ → ℤ) → Type 0
IsBelow rand = (n : ℤ) → pos 0 <ℤ n → (pos 0 ≤ℤ rand n) × (rand n <ℤ n)

-- No wait: a Backoff that is not positive, or the first attempt.
pub retry_backoff_none :
    (rand : ℤ → ℤ) (cfg : RetryConfig) (retry : ℕ)
    → (leb_ℤ cfg.backoff (pos 0) || leb retry 0) ≡ true
    → retry_backoff rand cfg retry ≡ pos 0
unfolding retry_backoff
retry_backoff_none rand cfg retry h = rw h

-- The largest wait that the configuration allows.
abbrev pub longest : RetryConfig → ℤ
longest cfg = capped cfg (pos max_int64)

abbrev Fits : RetryConfig → ℤ → Type 0
Fits cfg wait = (pos 0 ≤ℤ wait) × (wait ≤ℤ longest cfg)

Fits-zero : (cfg : RetryConfig) → Fits cfg (pos 0)
Fits-zero cfg = ground arith

Fits-capped : (cfg : RetryConfig) (y : ℕ) → 1 ≤ y → y ≤ max_int64 → Fits cfg (capped cfg (pos y))
Fits-capped cfg y h k = ground arith

capped_pos : (cfg : RetryConfig) (y : ℕ) → 1 ≤ y → pos 0 <ℤ capped cfg (pos y)
capped_pos cfg y h = ground arith

Fits-jitter :
    (rand : ℤ → ℤ) (cfg : RetryConfig) (wait : ℤ)
    → IsBelow rand
    → pos 0 <ℤ wait
    → Fits cfg wait
    → Fits cfg (if cfg.jitter then rand wait else wait)
Fits-jitter rand cfg wait below p f = elim (Bool-cases cfg.jitter) [
  | inl j ↦ rw j (omega (arith, below wait p, f))
  | inr j ↦ rw j f
]

pos_of_test :
    (a : ℤ) (retry : ℕ)
    → (leb_ℤ a (pos 0) || leb retry 0) ≡ false
    → (a ≡ pos (pos_part a)) × (0 < pos_part a) × (0 < retry) × (neg_part a ≡ 0)
pos_of_test a retry h = ground arith

retry_backoff-Fits :
    (rand : ℤ → ℤ) (cfg : RetryConfig) (retry : ℕ)
    → IsBelow rand
    → cfg.backoff ≤ℤ pos max_int64
    → Fits cfg (retry_backoff rand cfg retry)
retry_backoff-Fits rand cfg retry below h =
    elim (Bool-cases (leb_ℤ cfg.backoff (pos 0) || leb retry 0)) [
      | inl off ↦ rw (retry_backoff_none rand cfg retry off) (Fits-zero cfg)
      | inr on ↦
          let (e, b, r, n) = pos_of_test cfg.backoff retry on in
          let y = min (pos_part cfg.backoff * 2 ^ (retry - 1)) max_int64 in
          let ge : 1 ≤ y =
            omega
              (arith, le-mul_pos (pos_part cfg.backoff) (2 ^ (retry - 1)) (pow-pos (retry - 1))) in
          let le : y ≤ max_int64 = omega arith in
          rw (retry_backoff_closed rand cfg (pos_part cfg.backoff) retry e b (omega arith) r) (
            Fits-jitter rand cfg (capped cfg (pos y)) below (capped_pos cfg y ge)
              (Fits-capped cfg y ge le))
    ]

-- The wait before a retry is not negative, is at least the target's RetryAfter, and is at most the
-- larger of RetryAfter and the configured cap (MaxBackoff if it is positive, and always the largest
-- duration), if the random source keeps below its bound.
pub retry_delay_bounds :
    (rand : ℤ → ℤ) (cfg : RetryConfig) (retry : ℕ) (result : DeliveryResult)
    → IsBelow rand
    → cfg.backoff ≤ℤ pos max_int64
    → let wait = retry_delay rand cfg retry result in
      (pos 0 ≤ℤ wait)
      × (result.retry_after ≤ℤ wait)
      × (wait ≤ℤ max_ℤ (longest cfg) result.retry_after)
unfolding retry_delay
retry_delay_bounds rand cfg retry result below h =
    larger (retry_backoff rand cfg retry) (longest cfg) result.retry_after
      (retry_backoff-Fits rand cfg retry below h).0 (retry_backoff-Fits rand cfg retry below h).1
  where
    larger :
        (a c r : ℤ)
        → pos 0 ≤ℤ a
        → a ≤ℤ c
        → (pos 0 ≤ℤ max_ℤ a r) × (r ≤ℤ max_ℤ a r) × (max_ℤ a r ≤ℤ max_ℤ c r)
    larger a c r p q = ground arith

-- Without jitter a later retry never waits for less.
retry_backoff_mono :
    (rand : ℤ → ℤ) (cfg : RetryConfig) (b r s : ℕ)
    → cfg.jitter ≡ false
    → cfg.backoff ≡ pos b
    → 0 < b
    → b ≤ max_int64
    → 0 < r
    → r ≤ s
    → retry_backoff rand cfg r ≤ℤ retry_backoff rand cfg s
retry_backoff_mono rand cfg b r s j e hb hm hr hs =
    rw
      (
        retry_backoff_closed rand cfg b r e hb hm hr,
        retry_backoff_closed rand cfg b s e hb hm (omega arith),
        j,
      )
      (capped_mono cfg _ _ (
        min_mono (b * 2 ^ (r - 1)) (b * 2 ^ (s - 1))
          (mul_mono b (2 ^ (r - 1)) (2 ^ (s - 1)) (pow-le-pow_right (omega arith) (omega arith)))))
  where
    mul_mono : (b x y : ℕ) → x ≤ y → b * x ≤ b * y
    mul_mono b x y h = grind arith

    min_mono : (x y : ℕ) → x ≤ y → min x max_int64 ≤ min y max_int64
    min_mono x y h = omega arith

    capped_mono : (cfg : RetryConfig) (x y : ℕ) → x ≤ y → capped cfg (pos x) ≤ℤ capped cfg (pos y)
    capped_mono cfg x y h = ground arith
