-- ===== src/Targets/Email/Message/Body.antt =====
-- targets/email/email.go, normalizeBody: the lines of a body.
use notifykit.Base.{
  ℕ, ◌≡◌, refl, sym, ap, inl, inr, Bool, true, false, List, [], ◌∷◌, ◌++◌, arith, ◌==◌,
  if◌then◌else◌, Bool-cases, ==_iff,
}
use notifykit.Text.{Text}
use notifykit.Text.Strings.{has_prefix, replace_from, replace_all, join_texts}
use notifykit.Targets.Email.Message.{crlf, normalize_body}

-- A byte before a line, in the first of some lines.
abbrev pub push : ℕ → List Text → List Text
push b [] = (b ∷ []) ∷ []
push b (line ∷ lines) = (b ∷ line) ∷ lines

-- The lines of a text, where a line ends with CR LF, with CR or with LF; `after_cr` says that the
-- byte before was a CR, so that an LF ends no further line.
unfoldable pub lines_from : Bool → Text → List Text
lines_from after_cr [] = [] ∷ []
lines_from after_cr (b ∷ bs) =
    let same_break = lines_from false bs in
    let by_lf = [] ∷ lines_from false bs in
    let by_cr = [] ∷ lines_from true bs in
    let more = push b (lines_from false bs) in
    if b == 10 then (if after_cr then same_break else by_lf) else if b == 13 then by_cr else more

-- Replacing one byte is a substitution.
subst_byte : ℕ → Text → Text → Text
subst_byte old new [] = []
subst_byte old new (b ∷ bs) =
    let rest = subst_byte old new bs in if old == b then new ++ rest else b ∷ rest

replace_all-byte :
    (s : Text) (old : ℕ) (new : Text) → replace_all s (old ∷ []) new ≡ subst_byte old new s
unfolding replace_all replace_from subst_byte has_prefix
replace_all-byte [] old new = refl
replace_all-byte (b ∷ bs) old new = elim (Bool-cases (old == b)) [
  | inl same ↦ rw same (ap (◌++◌ new) (replace_all-byte bs old new))
  | inr other ↦ rw other (ap (◌∷◌ b) (replace_all-byte bs old new))
]

join-push : (b : ℕ) (ls : List Text) → join_texts (push b ls) crlf ≡ b ∷ join_texts ls crlf
unfolding join_texts
join-push b [] = refl
join-push b (l ∷ []) = refl
join-push b (l ∷ m ∷ ms) = refl

push-cons : (b : ℕ) (ls : List Text) → (l : Text) × (ms : List Text) × (push b ls ≡ l ∷ ms)
push-cons b [] = (b ∷ [], [], refl)
push-cons b (l ∷ ls) = (b ∷ l, ls, refl)

lines-cons : (c : Bool) (s : Text) → (l : Text) × (ms : List Text) × (lines_from c s ≡ l ∷ ms)
unfolding lines_from
lines-cons c [] = ([], [], refl)
lines-cons c (b ∷ bs) = elim (Bool-cases (b == 10)) [
  | inl lf ↦ elim (Bool-cases c) [
    | inl after ↦ (let (l, ms, e) = lines-cons false bs in (l, ms, rw (lf, after) e))
    | inr first ↦ ([], lines_from false bs, rw (lf, first) refl)
  ]
  | inr not_lf ↦ elim (Bool-cases (b == 13)) [
    | inl cr ↦ ([], lines_from true bs, rw (not_lf, cr) refl)
    | inr other ↦
        (let (l, ms, e) = push-cons b (lines_from false bs) in (l, ms, rw (not_lf, other) e))
  ]
]

join_break :
    (c : Bool) (s : Text)
    → join_texts ([] ∷ lines_from c s) crlf ≡ 13 ∷ 10 ∷ join_texts (lines_from c s) crlf
unfolding join_texts
join_break c s = let (l, ms, e) = lines-cons c s in rw e refl

-- The two later replacements.
abbrev expand : Text → Text
expand s = subst_byte 10 crlf (subst_byte 13 (10 ∷ []) s)

expand_step :
    (b : ℕ) (s : Text)
    → expand (b ∷ s) ≡ (
        if b == 10
        then 13 ∷ 10 ∷ expand s
        else if b == 13
        then 13 ∷ 10 ∷ expand s
        else b ∷ expand s)
unfolding subst_byte
expand_step b s = ground arith

replace_pair :
    (c : ℕ) (s : Text)
    → replace_from crlf (10 ∷ []) 0 (13 ∷ c ∷ s) ≡ (
        if c == 10
        then 10 ∷ replace_from crlf (10 ∷ []) 0 s
        else 13 ∷ replace_from crlf (10 ∷ []) 0 (c ∷ s))
unfolding replace_from has_prefix
replace_pair c s = ground arith

replace_single :
    (b : ℕ) (s : Text)
    → (b == 13) ≡ false
    → replace_from crlf (10 ∷ []) 0 (b ∷ s) ≡ b ∷ replace_from crlf (10 ∷ []) 0 s
unfolding replace_from has_prefix
replace_single b s h = ground arith

abbrev Normalizes : Text → Type 0
Normalizes s = expand (replace_from crlf (10 ∷ []) 0 s) ≡ join_texts (lines_from false s) crlf

copy_byte : (b : ℕ) (s : Text) → (b == 13) ≡ false → Normalizes s → Normalizes (b ∷ s)
unfolding lines_from
copy_byte b s h ih = elim (Bool-cases (b == 10)) [
  | inl lf ↦
      rw (replace_single b s h, expand_step b (replace_from crlf (10 ∷ []) 0 s), lf, ih)
        (sym (join_break false s))
  | inr other ↦
      rw (replace_single b s h, expand_step b (replace_from crlf (10 ∷ []) 0 s), other, h, ih)
        (sym (join-push b (lines_from false s)))
]

after_cr :
    (c : ℕ) (s : Text) → (c == 10) ≡ false → lines_from true (c ∷ s) ≡ lines_from false (c ∷ s)
unfolding lines_from
after_cr c s h = rw h refl

after_crlf : (c : ℕ) (s : Text) → (c == 10) ≡ true → lines_from true (c ∷ s) ≡ lines_from false s
unfolding lines_from
after_crlf c s h = rw h refl

cr_line : (s : Text) → lines_from false (13 ∷ s) ≡ [] ∷ lines_from true s
unfolding lines_from
cr_line s = refl

return_byte : (c : ℕ) (s : Text) → Normalizes (c ∷ s) → Normalizes s → Normalizes (13 ∷ c ∷ s)
return_byte c s ih ih' = elim (Bool-cases (c == 10)) [
  | inl lf ↦
      rw (replace_pair c s, lf, expand_step 10 (replace_from crlf (10 ∷ []) 0 s), ih')
        (sym (rw (cr_line (c ∷ s), after_crlf c s lf) (join_break false s)))
  | inr other ↦
      rw
        (
          replace_pair c s,
          other,
          expand_step 13 (replace_from crlf (10 ∷ []) 0 (c ∷ s)),
          ih,
          cr_line (c ∷ s),
          after_cr c s other,
        )
        (sym (join_break false (c ∷ s)))
]

return_alone : Normalizes (13 ∷ [])
unfolding replace_from has_prefix subst_byte lines_from join_texts
return_alone = refl

normalizes : (s : Text) → Normalizes s
normalizes [] = unfold replace_from subst_byte lines_from join_texts in refl
normalizes (b ∷ []) = elim (Bool-cases (b == 13)) [
  | inl cr ↦ rw ((==_iff b 13).0 cr) return_alone
  | inr other ↦ copy_byte b [] other (normalizes [])
]
normalizes (b ∷ c ∷ s) = elim (Bool-cases (b == 13)) [
  | inl cr ↦ rw ((==_iff b 13).0 cr) (return_byte c s (normalizes (c ∷ s)) (normalizes s))
  | inr other ↦ copy_byte b (c ∷ s) other (normalizes (c ∷ s))
]

all_normalizes :
    (s : Text) → expand (replace_all s crlf (10 ∷ [])) ≡ join_texts (lines_from false s) crlf
unfolding replace_all
all_normalizes s = normalizes s

-- normalizeBody keeps the lines of a body, whichever way they end, and ends them with CR LF.
pub normalize_body-lines :
    (body : Text) → normalize_body body ≡ join_texts (lines_from false body) crlf
unfolding normalize_body
normalize_body-lines body = rw (replace_all-byte (replace_all body crlf (10 ∷ [])) 13 (10 ∷ [])) (
    rw (replace_all-byte (subst_byte 13 (10 ∷ []) (replace_all body crlf (10 ∷ []))) 10 crlf)
      (all_normalizes body))
