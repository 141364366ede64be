-- ===== src/Notify/Result.antt =====
-- What a function with the results `(T, error)` returns: a value, or an error that is not nil.
use notifykit.Base.{◌≡◌, refl, ◌⊎◌, inl, inr, Bool, true, false, Option, none, some}
use notifykit.Notify.Error.{Error}

pub data Result {ℓ} (A : Type ℓ) : Type ℓ where
  ok : A → Result A
  err : Error → Result A

infixl 5 ◌>>=◌ ◌>>◌
-- `value, err := first; if err != nil { return ..., err }`, and then the rest.
abbrev pub ◌>>=◌ {ℓ κ} :
    {Value : Type ℓ} {Last : Type κ} → Result Value → (Value → Result Last) → Result Last
err e >>= rest = err e
ok value >>= rest = rest value

-- The same for a function that returns only an error.
abbrev pub ◌>>◌ {ℓ} : {Last : Type ℓ} → Result (Unit {0}) → Result Last → Result Last
first >> rest = first >>= λ _. rest

-- `if condition { return ..., e }`
abbrev pub refuse_if : Bool → Error → Result (Unit {0})
refuse_if true e = err e
refuse_if false e = ok tt

-- `if e := ...; e != nil { return ..., e }`
abbrev pub check : Option Error → Result (Unit {0})
check none = ok tt
check (some e) = err e

-- The error of a function that returns only that.
abbrev pub error_of {ℓ} : {A : Type ℓ} → Result A → Option Error
error_of (ok a) = none
error_of (err e) = some e

-- The error with something around it.
abbrev pub map_error {ℓ} : {A : Type ℓ} → (Error → Error) → Result A → Result A
map_error f (ok a) = ok a
map_error f (err e) = err (f e)

pub Result-cases {ℓ} :
    {A : Type ℓ} (r : Result A) → ((e : Error) × (r ≡ err e)) ⊎ ((a : A) × (r ≡ ok a))
Result-cases (ok a) = inr (a, refl)
Result-cases (err e) = inl (e, refl)

-- A chain of checks is passed when each is.
pub refuse_if-ok :
    (b : Bool) (e : Error) (k : Result (Unit {0}))
    → (refuse_if b e >> k) ≡ ok tt
    → (b ≡ false) × (k ≡ ok tt)
refuse_if-ok true e k h = cc
refuse_if-ok false e k h = (refl, h)

pub map_error-ok {ℓ} :
    {A : Type ℓ} (f : Error → Error) (r : Result A) (k : Result (Unit {0}))
    → (map_error f r >>= λ _. k) ≡ ok tt
    → ((a : A) × (r ≡ ok a)) × (k ≡ ok tt)
map_error-ok f (ok a) k h = ((a, refl), h)
map_error-ok f (err e) k h = cc

pub unit-ok :
    (r : Result (Unit {0})) (k : Result (Unit {0})) → (r >> k) ≡ ok tt → (r ≡ ok tt) × (k ≡ ok tt)
unit-ok (ok tt) k h = (refl, h)
unit-ok (err e) k h = cc

pub refuse_if-passes :
    (b : Bool) (e : Error) (k : Result (Unit {0}))
    → b ≡ false
    → k ≡ ok tt
    → (refuse_if b e >> k) ≡ ok tt
refuse_if-passes b e k h p = rw (h, refuse_if) p

-- What a chain that returns no error went through.
pub then-ok {ℓ κ} :
    {A : Type ℓ} {B : Type κ} (r : Result A) (k : A → Result B) (b : B)
    → (r >>= k) ≡ ok b
    → (a : A) × (r ≡ ok a) × (k a ≡ ok b)
then-ok (ok a) k b h = (a, refl, h)
then-ok (err e) k b h = cc

pub map_error-then {ℓ κ} :
    {A : Type ℓ} {B : Type κ} (f : Error → Error) (r : Result A) (k : A → Result B) (b : B)
    → (map_error f r >>= k) ≡ ok b
    → (a : A) × (r ≡ ok a) × (k a ≡ ok b)
map_error-then f (ok a) k b h = (a, refl, h)
map_error-then f (err e) k b h = cc

pub refuse_if-then {ℓ} :
    {B : Type ℓ} (refused : Bool) (e : Error) (k : Result B) (b : B)
    → (refuse_if refused e >> k) ≡ ok b
    → (refused ≡ false) × (k ≡ ok b)
refuse_if-then true e k b h = cc
refuse_if-then false e k b h = (refl, h)

pub map_error-returns {ℓ} :
    {A : Type ℓ} (f : Error → Error) (r : Result A) (a : A) → map_error f r ≡ ok a → r ≡ ok a
map_error-returns f (ok x) a h = h
map_error-returns f (err e) a h = cc
