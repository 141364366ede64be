-- ===== src/Notify/Error/MarkLaws.antt =====
-- The laws of the marks of notify/error.go.
use notifykit.Base.{◌≡◌, refl, true, false, not, Option, none, some, arith, Bool-cases, inl, inr}
use notifykit.Notify.Error.{Error, find_as, permanent_error, transport_error}
use notifykit.Notify.Error.Marks.{is_permanent, is_transport, permanent, transport}

-- Permanent marks every error, Transport marks every error that is not permanent and no other, and
-- a permanent error is no transport error, whatever marks the chain held before.
pub permanent-transport :
    (e : Error)
    → (is_permanent (permanent (some e)) ≡ true)
      × (is_transport (permanent (some e)) ≡ false)
      × (is_permanent (transport (some e)) ≡ is_permanent (some e))
      × (is_transport (transport (some e)) ≡ not (is_permanent (some e)))
unfolding is_permanent is_transport permanent transport find_as
permanent-transport e = ground arith

-- Marking twice is marking once, and Permanent is not undone by Transport, nil included.
marks_idem :
    (o : Option Error)
    → (permanent (permanent o) ≡ permanent o)
      × (transport (transport o) ≡ transport o)
      × (transport (permanent o) ≡ permanent o)
unfolding is_permanent is_transport permanent transport find_as
marks_idem none = (refl, refl, refl)
marks_idem (some e) = ground arith

-- `errors.As` at an error value that may be nil.
abbrev pub find_in {ℓ} : {A : Type ℓ} → (Error → Option A) → Option Error → Option A
find_in f none = none
find_in f (some e) = find_as f e

-- A search of errors.As that looks for something else than the marks finds in a marked error just
-- what it finds in the error.
find_as-marks {ℓ} :
    {A : Type ℓ} (f : Error → Option A) (e : Error)
    → ((x : Error) → f (permanent_error x) ≡ none)
    → ((x : Error) → f (transport_error x) ≡ none)
    → (find_in f (permanent (some e)) ≡ find_as f e)
      × (find_in f (transport (some e)) ≡ find_as f e)
unfolding is_permanent is_transport permanent transport find_as
find_as-marks f e hp ht = ground (arith, hp e, ht e)

-- A mark leaves an error, with the mark.
pub permanent-some :
    (e : Error) → (x : Error) × (permanent (some e) ≡ some x) × (is_permanent (some x) ≡ true)
unfolding permanent is_permanent find_as
permanent-some e = elim (Bool-cases (is_permanent (some e))) [
  | inl p ↦ rw (p, permanent) (e, refl, p)
  | inr p ↦ rw (p, permanent) (permanent_error e, refl, refl)
]
