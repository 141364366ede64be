-- ===== src/Text/Visible.antt =====
-- strings.TrimSpace of a text of ASCII characters that are no white space, strings.TrimSuffix, and
-- the sorted texts.
use notifykit.Base.{
  ℕ, ◌<◌, ◌≡◌, refl, ap, Bool-cases, false, inl, inr, List, [], ◌∷◌, ◌++◌, All, arith, length,
  length-append,
}
use notifykit.Text.{Text, text_eq, text_eq_sound, text_eq_refl, text_leb}
use notifykit.Text.Runes.{
  chunks, is_space, trim_left, trim_right, join_chunks, trim_space, singles, IsAscii, chunks-ascii,
}
use notifykit.Text.Strings.{trim_suffix, insert_text, sort_texts}

-- An ASCII character that is no white space.
abbrev pub IsVisible : ℕ → Type 0
IsVisible b = (b < 128) × (is_space b ≡ false)

trims : (t : Text) → All IsVisible t → trim_left (singles t) ≡ singles t
unfolding trim_left
trims [] h = refl
trims (b ∷ bs) (h, hs) = rw h.1 refl

trims_right : (t : Text) → All IsVisible t → trim_right (singles t) ≡ singles t
unfolding trim_right
trims_right [] h = refl
trims_right (b ∷ bs) (h, hs) = rw h.1 (ap (◌∷◌ (b, b ∷ [])) (trims_right bs hs))

join-singles : (t : Text) → join_chunks (singles t) ≡ t
unfolding join_chunks
join-singles [] = refl
join-singles (b ∷ bs) = ap (◌∷◌ b) (join-singles bs)

pub visible-All : (t : Text) → All IsVisible t → All IsAscii t
visible-All [] h = tt
visible-All (b ∷ bs) (h, hs) = (h.0, visible-All bs hs)

pub trim_space-All : (t : Text) → All IsVisible t → trim_space t ≡ t
unfolding trim_space chunks
trim_space-All t h =
    rw (chunks-ascii t (visible-All t h), trims t h, trims_right t h) (join-singles t)

longer : (c : ℕ) (s suffix : Text) → text_eq (c ∷ s ++ suffix) suffix ≡ false
longer c s suffix = elim (Bool-cases (text_eq (c ∷ s ++ suffix) suffix)) [
  | inl same ↦
      let e = ap length (text_eq_sound (c ∷ s ++ suffix) suffix same) in
      absurd (omega (arith, e, length-append s suffix))
  | inr other ↦ other
]

pub trim_suffix-append : (s : Text) (b : ℕ) (bs : Text) → trim_suffix (s ++ b ∷ bs) (b ∷ bs) ≡ s
unfolding trim_suffix
trim_suffix-append [] b bs = rw (trim_suffix, text_eq_refl (b ∷ bs)) refl
trim_suffix-append (c ∷ s) b bs =
    rw (trim_suffix, longer c s (b ∷ bs)) (ap (◌∷◌ c) (trim_suffix-append s b bs))

module _ (P : Text → Type 0) where
  insert_text-All : (t : Text) (ts : List Text) → P t → All P ts → All P (insert_text t ts)
  unfolding insert_text
  insert_text-All t [] p h = (p, tt)
  insert_text-All t (u ∷ us) p h = elim (Bool-cases (text_leb t u)) [
    | inl before ↦ rw before (p, h)
    | inr after ↦ rw after (h.0, insert_text-All t us p h.1)
  ]

  pub sort_texts-All : (ts : List Text) → All P ts → All P (sort_texts ts)
  unfolding sort_texts
  sort_texts-All [] h = tt
  sort_texts-All (t ∷ ts) h = insert_text-All t (sort_texts ts) h.0 (sort_texts-All ts h.1)
