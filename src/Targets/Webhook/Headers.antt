-- ===== src/Targets/Webhook/Headers.antt =====
-- targets/webhook/webhook.go: what WithHeaders sets, whatever the order of the entries of a map.
use mathlib.Core.Quot
use mathlib.Core.Quot.{Quot, Quot-set}
use notifykit.Base.{
  ◌≡◌, refl, sym, ap, ◌∙◌, true, false, Bool-cases, inl, inr, Option, none, some, List, [], ◌∷◌,
  All,
}
use notifykit.Text.{Text, text_eq, text_eq_sound}
use notifykit.Text.Maps.{assign, copy_into}
use notifykit.Notify.Error.{or_else}
use notifykit.Notify.Receivers.{lookup}
use notifykit.Notify.Receivers.Normal.{keys, KeysDistinct}
use notifykit.Targets.Webhook.Sending.{Webhook}
use notifykit.Targets.Webhook.Config.{with_headers}

-- Two lists hold the same entries of a map.
abbrev SameEntries : List (Text × Text) → List (Text × Text) → Type 0
SameEntries m n = (key : Text) → lookup key m ≡ lookup key n

-- A Go map of headers, without an order.
abbrev HeaderMap : Type 0
HeaderMap = Quot SameEntries

abbrev header_map : List (Text × Text) → HeaderMap
header_map m = Quot.mk m

entry-IsSet : IsSet (Option Text)
entry-IsSet = hlevel

entry : Text → HeaderMap → Option Text
entry key = Quot.lift entry-IsSet (lookup key) (λ m n h. h key)

eq-same : (key a b : Text) → text_eq a b ≡ true → text_eq a key ≡ text_eq b key
eq-same key a b h = ap (λ x. text_eq x key) (text_eq_sound a b h)

lookup-assign :
    (key name value : Text) (m : List (Text × Text))
    → text_eq name key ≡ false
    → lookup key (assign name value m) ≡ lookup key m
unfolding lookup assign
lookup-assign key name value [] h = rw h refl
lookup-assign key name value ((j, old) ∷ m) h = elim (Bool-cases (text_eq j name)) [
  | inl hit ↦ let miss = eq-same key j name hit ∙ h in rw (hit, lookup, miss) refl
  | inr other ↦ elim (Bool-cases (text_eq j key)) [
    | inl there ↦ rw (other, lookup, there) refl
    | inr away ↦ rw (other, lookup, away) (lookup-assign key name value m h)
  ]
]

lookup-assigned :
    (key name value : Text) (m : List (Text × Text))
    → text_eq name key ≡ true
    → lookup key (assign name value m) ≡ some value
unfolding lookup assign
lookup-assigned key name value [] h = rw h refl
lookup-assigned key name value ((j, old) ∷ m) h = elim (Bool-cases (text_eq j name)) [
  | inl hit ↦ let there = eq-same key j name hit ∙ h in rw (hit, lookup, there) refl
  | inr other ↦ elim (Bool-cases (text_eq j key)) [
    | inl there ↦ let same = ap (text_eq j) (text_eq_sound name key h) in cc
    | inr away ↦ rw (other, lookup, away) (lookup-assigned key name value m h)
  ]
]

lookup-missing :
    (key name : Text) (m : List (Text × Text))
    → text_eq name key ≡ true
    → All (λ j. text_eq j name ≡ false) (keys m)
    → lookup key m ≡ none
unfolding lookup
lookup-missing key name [] h d = refl
lookup-missing key name ((j, v) ∷ m) h d =
    let away = ap (text_eq j) (sym (text_eq_sound name key h)) ∙ d.0 in
    rw away (lookup-missing key name m h d.1)

-- An entry of the copied map wins over one that was there.
lookup-copy_into :
    (key : Text) (m h : List (Text × Text))
    → KeysDistinct h
    → lookup key (copy_into m h) ≡ or_else (lookup key h) (lookup key m)
unfolding lookup copy_into
lookup-copy_into key m [] d = refl
lookup-copy_into key m ((k, v) ∷ h) d = elim (Bool-cases (text_eq k key)) [
  | inl hit ↦ rw hit (
      lookup-copy_into key (assign k v m) h d.1
      ∙ (λ i. or_else (lookup-missing key k h hit d.0 i) (lookup-assigned key k v m hit i)))
  | inr miss ↦ rw miss (
      lookup-copy_into key (assign k v m) h d.1
      ∙ ap (or_else (lookup key h)) (lookup-assign key k v m miss))
]

module _ {Client Data : Type 0} where
  -- WithHeaders changes no field but Headers. There each name of the given map has the value of the
  -- given map, and each other name the value that it had, or none. The given map has distinct keys.
  pub lookup-with_headers :
      (t : Webhook Client Data) (h : List (Text × Text))
      → KeysDistinct h
      → (record (with_headers h t) { headers = t.headers } ≡ t)
        × ((key : Text)
            → lookup key (with_headers h t).headers ≡ or_else (lookup key h) (lookup key t.headers))
  unfolding with_headers
  lookup-with_headers t h d = (refl, λ key. lookup-copy_into key t.headers h d)

  -- WithHeaders depends on the maps alone, the one of the target and the one that is copied, and not on
  -- the order in which the code ranges over either.
  with_headers-HeaderMap :
      (s t : Webhook Client Data) (h g : List (Text × Text))
      → KeysDistinct h
      → KeysDistinct g
      → header_map s.headers ≡ header_map t.headers
      → header_map h ≡ header_map g
      → header_map (with_headers h s).headers ≡ header_map (with_headers g t).headers
  unfolding with_headers entry
  with_headers-HeaderMap s t h g d c e f = Quot.sound (λ key.
      lookup-copy_into key s.headers h d
      ∙ (λ i. or_else (entry key (f i)) (entry key (e i)))
      ∙ sym (lookup-copy_into key t.headers g c))
