-- ===== src/Targets/Webhook/RetryAfter.antt =====
-- targets/webhook/webhook.go: parseRetryAfter.
use notifykit.Base.{
  ℕ, zero, suc, ◌+◌, ◌*◌, ◌/◌, ◌≤◌, ◌≡◌, ◌-◌, min, ℤ, pos, negsuc, ◌*ℤ◌, ◌≤ℤ◌, true, ◌&&◌, Option,
  none, some, [], ◌∷◌, arith, leb, ltb_ℤ, leb_ℤ, max_int64, wrap64, is_empty, if◌then◌else◌,
  Option-cases, Bool-cases, inl, inr, ◌==◌,
}
use notifykit.Text.{Text}
use notifykit.Text.Runes.{trim_space}

-- The digits of a decimal number, from its value so far.
unfoldable pub digits : ℕ → Text → Option ℕ
digits n [] = some n
digits n (c ∷ cs) =
    let rest = digits (n * 10 + (c - 48)) cs in if leb 48 c && leb c 57 then rest else none

abbrev magnitude : Text → Option ℕ
magnitude [] = none
magnitude (c ∷ cs) = digits 0 (c ∷ cs)

abbrev positive : Option ℕ → Option ℤ
positive none = none
positive (some n) = if leb n max_int64 then some (pos n) else none

abbrev negative : Option ℕ → Option ℤ
negative none = none
negative (some zero) = some (pos 0)
negative (some (suc n)) = if leb n max_int64 then some (negsuc n) else none

-- strconv.ParseInt in base 10 with 64 bits; an error is `none`.
unfoldable pub parse_int64 : Text → Option ℤ
unfolding digits
parse_int64 [] = none
parse_int64 (c ∷ cs) =
    if c == 43
    then positive (magnitude cs)
    else if c == 45
    then negative (magnitude cs)
    else positive (magnitude (c ∷ cs))

abbrev pub second : ℕ
second = 1000000000

-- `time.Duration(seconds) * time.Second`, saturated.
unfoldable pub seconds_delay : ℤ → ℤ
seconds_delay seconds =
    if ltb_ℤ (pos (max_int64 / second)) seconds
    then pos max_int64
    else wrap64 (seconds *ℤ pos second)

-- The HTTP date: `until` gives, for a date that http.ParseTime accepts, retryAt.Sub(now).
unfoldable pub date_delay : (Text → Option ℤ) → Text → ℤ
date_delay until value = elim (until value) [
  | none ↦ pos 0
  | some wait ↦ if leb_ℤ wait (pos 0) then pos 0 else wait
]

-- The trimmed value.
unfoldable pub trimmed_delay : (Text → Option ℤ) → Text → ℤ
trimmed_delay until value = if is_empty value then pos 0 else elim (parse_int64 value) [
  | none ↦ date_delay until value
  | some seconds ↦ if leb_ℤ (pos 0) seconds then seconds_delay seconds else date_delay until value
]

unfoldable pub parse_retry_after : (Text → Option ℤ) → Text → ℤ
parse_retry_after until value = trimmed_delay until (trim_space value)

-- The product never wraps: the delay is the smaller of the two.
seconds_delay-saturates :
    (n : ℕ) → n ≤ max_int64 → seconds_delay (pos n) ≡ pos (min (n * second) max_int64)
unfolding seconds_delay
seconds_delay-saturates n h = ground arith

abbrev pub InRange : ℤ → Type 0
InRange d = (pos 0 ≤ℤ d) × (d ≤ℤ pos max_int64)

positive-range : (o : Option ℕ) (s : ℤ) → positive o ≡ some s → s ≤ℤ pos max_int64
positive-range o s h = ground arith

negative-range : (o : Option ℕ) (s : ℤ) → negative o ≡ some s → s ≤ℤ pos max_int64
negative-range o s h = ground arith

parse_int64-range : (t : Text) (s : ℤ) → parse_int64 t ≡ some s → s ≤ℤ pos max_int64
unfolding parse_int64
parse_int64-range [] s h = ground arith
parse_int64-range (c ∷ cs) s h = ground (
  arith,
  positive-range (magnitude cs) s,
  negative-range (magnitude cs) s,
  positive-range (magnitude (c ∷ cs)) s,
)

seconds_delay-InRange : (s : ℤ) → pos 0 ≤ℤ s → s ≤ℤ pos max_int64 → InRange (seconds_delay s)
unfolding seconds_delay
seconds_delay-InRange (pos n) l h = ground arith
seconds_delay-InRange (negsuc n) l h = ground arith

date_delay-InRange :
    (until : Text → Option ℤ) (t : Text)
    → ((t : Text) (d : ℤ) → until t ≡ some d → d ≤ℤ pos max_int64)
    → InRange (date_delay until t)
unfolding date_delay
date_delay-InRange until t h = elim (Option-cases (until t)) [
  | inl e ↦ rw (e, date_delay) (omega arith, omega arith)
  | inr (d, e) ↦ rw (e, date_delay) (ground (arith, h t d e))
]

trimmed_delay-InRange :
    (until : Text → Option ℤ) (t : Text)
    → ((t : Text) (d : ℤ) → until t ≡ some d → d ≤ℤ pos max_int64)
    → InRange (trimmed_delay until t)
unfolding trimmed_delay
trimmed_delay-InRange until [] h = (omega arith, omega arith)
trimmed_delay-InRange until (c ∷ cs) h =
    let d = date_delay-InRange until (c ∷ cs) h in
    elim (Option-cases (parse_int64 (c ∷ cs))) [
      | inl e ↦ rw (e, trimmed_delay) d
      | inr (s, e) ↦ elim (Bool-cases (leb_ℤ (pos 0) s)) [
        | inl l ↦
            rw (e, trimmed_delay, l)
              (seconds_delay-InRange s (ground (arith, l)) (parse_int64-range (c ∷ cs) s e))
        | inr l ↦ rw (e, trimmed_delay, l) d
      ]
    ]

not_negative : (n : ℕ) → leb_ℤ (pos 0) (pos n) ≡ true
not_negative n = ground arith

trimmed_delay-seconds :
    (until : Text → Option ℤ) (t : Text) (n : ℕ)
    → parse_int64 t ≡ some (pos n)
    → trimmed_delay until t ≡ pos (min (n * second) max_int64)
unfolding trimmed_delay parse_int64
trimmed_delay-seconds until [] n h = ground arith
trimmed_delay-seconds until (c ∷ cs) n h =
    let l = parse_int64-range (c ∷ cs) (pos n) h in
    rw (h, trimmed_delay, not_negative n) (seconds_delay-saturates n (omega (arith, l)))

-- A Retry-After value gives a delay of 0 to the largest duration, and a number of seconds just that
-- delay or the largest one, if the difference of two times is at most the largest duration.
pub parse_retry_after_range :
    (until : Text → Option ℤ) (value : Text)
    → ((t : Text) (d : ℤ) → until t ≡ some d → d ≤ℤ pos max_int64)
    → InRange (parse_retry_after until value)
      × ((n : ℕ)
          → parse_int64 (trim_space value) ≡ some (pos n)
          → parse_retry_after until value ≡ pos (min (n * second) max_int64))
unfolding parse_retry_after
parse_retry_after_range until value h =
    (trimmed_delay-InRange until _ h, λ n e. trimmed_delay-seconds until (trim_space value) n e)
