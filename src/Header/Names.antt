-- ===== src/Header/Names.antt =====
-- internal/header/header.go: which names pass ValidFieldName.
use notifykit.Base.{
  ℕ, ◌≤◌, ◌<◌, ◌≡◌, refl, subst, ◌-◌, ◌≢◌, ◌↔◌, ◌⊎◌, true, false, [], ◌∷◌, All, arith, and-true,
  else-true,
}
use notifykit.Text.{Text, text_eq_refl}
use notifykit.Text.Runes.{
  chunks, chunks_from, is_space, singles, chunks-ascii, rune_of-ascii, width-ascii, width, rune_of,
  first, rune_of-single,
}
use notifykit.Text.Visible.{IsVisible, visible-All, trim_space-All}
use notifykit.Header.{punctuation, is_one_of, valid_field_name_char, all_valid, valid_field_name}

-- The token characters of RFC 9110: letters, digits and the punctuation.
abbrev pub IsTokenByte : ℕ → Type 0
IsTokenByte b =
    ((97 ≤ b) × (b ≤ 122))
    ⊎ (((65 ≤ b) × (b ≤ 90)) ⊎ (((48 ≤ b) × (b ≤ 57)) ⊎ (is_one_of punctuation b ≡ true)))

char_iff : (b : ℕ) → (valid_field_name_char b ≡ true) ↔ IsTokenByte b
unfolding valid_field_name_char
char_iff b = ground arith

pub token-ascii : (b : ℕ) → IsTokenByte b → b < 128
unfolding is_one_of
token-ascii b h = ground arith

pub token-not_space : (b : ℕ) → IsTokenByte b → is_space b ≡ false
unfolding is_one_of is_space
token-not_space b h = ground arith

tokens-All : (t : Text) → All IsTokenByte t → All IsVisible t
tokens-All [] h = tt
tokens-All (b ∷ bs) (h, hs) = ((token-ascii b h, token-not_space b h), tokens-All bs hs)

all_valid-singles : (t : Text) → All IsTokenByte t → all_valid (singles t) ≡ true
unfolding all_valid
all_valid-singles [] h = refl
all_valid-singles (b ∷ bs) (h, hs) = rw ((char_iff b).1 h) (all_valid-singles bs hs)

all_valid-token : (t : Text) → all_valid (chunks_from 0 t) ≡ true → All IsTokenByte t
unfolding chunks_from all_valid
all_valid-token [] h = tt
all_valid-token (b ∷ bs) h =
    let rune = rune_of b (first (width b bs - 1) bs) in
    let p = and-true (valid_field_name_char rune) _ h in
    let ascii = rune_of-ascii b bs (token-ascii rune ((char_iff rune).0 p.0)) in
    let single = width-ascii b bs ascii in
    (
      (char_iff b).0 (subst (λ r. valid_field_name_char r ≡ true) (rune_of-single b bs ascii) p.0),
      all_valid-token bs (subst (λ k. all_valid (chunks_from (k - 1) bs) ≡ true) single p.1),
    )

all_valid-chunks : (t : Text) → all_valid (chunks t) ≡ true → All IsTokenByte t
unfolding chunks
all_valid-chunks t h = all_valid-token t h

chunks-singles : (t : Text) → All IsTokenByte t → chunks t ≡ singles t
unfolding chunks
chunks-singles t h = chunks-ascii t (visible-All t (tokens-All t h))

-- ValidFieldName accepts just the non-empty strings of token bytes.
pub valid_field_name_iff :
    (name : Text) → (valid_field_name name ≡ true) ↔ ((name ≢ []) × All IsTokenByte name)
unfolding valid_field_name
valid_field_name_iff [] = ((λ h. ground arith), λ p. ground (arith, p))
valid_field_name_iff (b ∷ bs) = (
  (λ h. ((λ e. ground arith), all_valid-chunks (b ∷ bs) (else-true _ _ h).1)),
  λ p.
      rw
        (
          trim_space-All (b ∷ bs) (tokens-All (b ∷ bs) p.1),
          text_eq_refl (b ∷ bs),
          chunks-singles (b ∷ bs) p.1,
        )
        (all_valid-singles (b ∷ bs) p.1),
)
