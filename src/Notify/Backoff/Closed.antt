-- ===== src/Notify/Backoff/Closed.antt =====
-- The backoff of notify/retry.go in closed form, and its bounds.
use notifykit.Base.{
  ℕ, zero, suc, ◌-◌, ◌*◌, ◌^◌, ◌≤◌, ◌<◌, min, ◌≡◌, ℤ, pos, false, arith, max_int64, ltb_ℤ, min_ℤ,
  if◌then◌else◌, ap, sym, ◌∙◌, ◌⊎◌, inl, inr, ◌&&◌, ◌||◌, leb_ℤ, leb,
}
use native.Mathlib.Nat.{pow-suc}
use notifykit.Notify.Backoff.{
  RetryConfig, double_duration, jitter_backoff, backoff_loop, retry_backoff,
}

-- The cap of MaxBackoff, which is off when it is zero or negative.
abbrev pub capped : RetryConfig → ℤ → ℤ
capped cfg wait = if ltb_ℤ (pos 0) cfg.max_backoff then min_ℤ wait cfg.max_backoff else wait

double_duration-min :
    (w : ℕ) → w ≤ max_int64 → double_duration (pos w) ≡ pos (min (w * 2) max_int64)
unfolding double_duration
double_duration-min w h = ground arith

pub pow-pos : (n : ℕ) → 1 ≤ 2 ^ n
pow-pos zero = omega arith
pow-pos (suc n) = rw pow-suc (omega (arith, pow-pos n))

le_total : (a b : ℕ) → (a ≤ b) ⊎ (b ≤ a)
le_total a b = omega arith

pub le-mul_pos : (a p : ℕ) → 1 ≤ p → a ≤ a * p
le-mul_pos a p h = grind arith

-- One doubling before the other `p`-fold growth, both saturated at the largest duration.
min-double-mul :
    (w p : ℕ) → 1 ≤ p → min (min (w * 2) max_int64 * p) max_int64 ≡ min (w * (p * 2)) max_int64
min-double-mul w p h = elim (le_total (w * 2) max_int64) [
  | inl l ↦ let e : min (w * 2) max_int64 ≡ w * 2 = omega arith in rw e (omega arith)
  | inr l ↦
      let e : min (w * 2) max_int64 ≡ max_int64 = omega arith in
      rw e (omega (arith, le-mul_pos (w * 2) p h))
]

-- Leaving the loop at MaxBackoff does not change the capped wait, since the wait only grows.
capped-cut :
    (cfg : RetryConfig) (v y : ℕ) (rest : ℤ)
    → capped cfg rest ≡ capped cfg (pos y)
    → v ≤ y
    → capped cfg (
        if ltb_ℤ (pos 0) cfg.max_backoff && leb_ℤ cfg.max_backoff (pos v)
        then cfg.max_backoff
        else rest)
      ≡ capped cfg (pos y)
capped-cut cfg v y rest h l = ground arith

capped-backoff_loop :
    (cfg : RetryConfig) (rounds w : ℕ)
    → w ≤ max_int64
    → capped cfg (backoff_loop cfg rounds (pos w))
      ≡ capped cfg (pos (min (w * 2 ^ rounds) max_int64))
unfolding backoff_loop
capped-backoff_loop cfg zero w h =
    let e : min (w * 1) max_int64 ≡ w = omega arith in ap (λ t. capped cfg (pos t)) (sym e)
capped-backoff_loop cfg (suc rounds) w h =
    rw (double_duration-min w h, pow-suc)
      (capped-cut cfg _ _ (backoff_loop cfg rounds (pos (min (w * 2) max_int64)))
        (capped-backoff_loop cfg rounds (min (w * 2) max_int64) (omega arith)
          ∙ ap (λ t. capped cfg (pos t)) (min-double-mul w (2 ^ rounds) (pow-pos rounds)))
        (omega (arith, le-mul_pos (w * 2) (2 ^ rounds) (pow-pos rounds))))

-- What follows the loop.
abbrev jittered : (ℤ → ℤ) → RetryConfig → ℤ → ℤ
jittered rand cfg wait = if cfg.jitter then jitter_backoff rand wait else wait

retry_backoff-jittered :
    (rand : ℤ → ℤ) (cfg : RetryConfig) (b retry : ℕ)
    → cfg.backoff ≡ pos b
    → 0 < b
    → 0 < retry
    → retry_backoff rand cfg retry
      ≡ jittered rand cfg (capped cfg (backoff_loop cfg (retry - 1) cfg.backoff))
unfolding retry_backoff
retry_backoff-jittered rand cfg b retry e hb hr = rw (starts cfg.backoff b retry e hb hr)
  where
    starts :
        (a : ℤ) (b retry : ℕ)
        → a ≡ pos b
        → 0 < b
        → 0 < retry
        → (leb_ℤ a (pos 0) || leb retry 0) ≡ false
    starts a b retry e hb hr = ground arith

capped-pos : (cfg : RetryConfig) (y : ℕ) → 1 ≤ y → leb_ℤ (capped cfg (pos y)) (pos 0) ≡ false
capped-pos cfg y h = ground arith

-- Without jitter retry `retry` waits Backoff * 2^(retry - 1), saturated at the largest duration and
-- capped by a positive MaxBackoff; with jitter it waits the random number below that bound. A retry
-- counts from 1, and Backoff is a positive duration.
pub retry_backoff_closed :
    (rand : ℤ → ℤ) (cfg : RetryConfig) (b retry : ℕ)
    → cfg.backoff ≡ pos b
    → 0 < b
    → b ≤ max_int64
    → 0 < retry
    → retry_backoff rand cfg retry ≡ (
        let wait = capped cfg (pos (min (b * 2 ^ (retry - 1)) max_int64)) in
        if cfg.jitter then rand wait else wait)
retry_backoff_closed rand cfg b retry e hb hm hr =
    retry_backoff-jittered rand cfg b retry e hb hr
    ∙ ap (jittered rand cfg) (
        ap (λ t. capped cfg (backoff_loop cfg (retry - 1) t)) e
        ∙ capped-backoff_loop cfg (retry - 1) b hm)
    ∙ jittered-pos (min (b * 2 ^ (retry - 1)) max_int64)
        (omega (arith, le-mul_pos b (2 ^ (retry - 1)) (pow-pos (retry - 1))))
  where
    jittered-pos :
        (y : ℕ)
        → 1 ≤ y
        → jittered rand cfg (capped cfg (pos y))
          ≡ (if cfg.jitter then rand (capped cfg (pos y)) else capped cfg (pos y))
    jittered-pos y h = unfold jitter_backoff in rw (capped-pos cfg y h)
