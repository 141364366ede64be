-- ===== src/Targets/Webhook/Body.antt =====
-- targets/webhook/webhook.go: readResponseBody and truncateBody.
use notifykit.Base.{
  ℕ, zero, suc, ◌+◌, ◌≤◌, ◌<◌, ◌≡◌, refl, ap, ◌⊎◌, is_empty, ◌&&◌, min, ℤ, pos, pos_part, ◌+ℤ◌,
  Bool, false, ◌||◌, Option, none, some, List, [], ◌∷◌, ◌++◌, arith, length, ltb, leb, ltb_ℤ, leb_ℤ,
  max_int64, if◌then◌else◌, length-append, lt→ltb, ltb→lt, ◌-◌, Bool-cases, Option-cases, inl, inr,
}
use notifykit.Text.{Text, bytes}
use notifykit.Text.Runes.{
  Chunk, chunks, chunks_from, first, width, is_space, trim_left, trim_right, join_chunks,
  trim_space,
}
use notifykit.Notify.Error.{Error}

-- A response body: its bytes, and the error that a Read gives after them, if it is not io.EOF.
pub record Body : Type 0 where
  pub content : Text
  pub fault : Option Error

-- io.ReadAll of an io.LimitReader, which ends after `n` bytes.
unfoldable pub read_limited : ℕ → Body → Text × Option Error
read_limited n body =
    if leb n (length body.content) then (first n body.content, none) else (body.content, body.fault)

abbrev pub effective_limit : ℤ → ℤ
effective_limit limit = if leb_ℤ limit (pos 0) then pos 4096 else limit

abbrev pub cut_at : ℕ → Text → Text
cut_at limit content = if ltb limit (length content) then first limit content else content

-- The lookahead of one byte, which saturates at the largest int.
abbrev lookahead : ℤ → ℤ
lookahead limit = if ltb_ℤ limit (pos max_int64) then limit +ℤ pos 1 else limit

-- From the return of io.ReadAll on.
unfoldable pub finish_read : ℕ → Text × Option Error → Text × Bool × Option Error
finish_read limit (content, some e) = ([], false, some e)
finish_read limit (content, none) =
    (trim_space (cut_at limit content), ltb limit (length content), none)

unfoldable pub read_response_body : Body → ℤ → Text × Bool × Option Error
read_response_body body limit =
    let limit' = effective_limit limit in
    finish_read (pos_part limit') (read_limited (pos_part (lookahead limit')) body)

-- An error of readResponseBody is that of the body.
pub read_fault :
    (body : Body) (limit : ℤ) (e : Error)
    → (read_response_body body limit).2 ≡ some e
    → body.fault ≡ some e
unfolding read_response_body read_limited finish_read
read_fault body limit e h = elim (Option-cases body.fault) [
  | inl sound ↦
      elim (Bool-cases (leb (pos_part (lookahead (effective_limit limit))) (length body.content))) [
        | inl enough ↦ let k = rw (enough, finish_read) at h in cc
        | inr short ↦ let k = rw (short, sound, finish_read) at h in cc
      ]
  | inr (f, broken) ↦
      elim (Bool-cases (leb (pos_part (lookahead (effective_limit limit))) (length body.content))) [
        | inl enough ↦ let k = rw (enough, finish_read) at h in cc
        | inr short ↦ let k = rw (short, broken, finish_read) at h in cc
      ]
]

unfoldable pub truncate_body : Text → ℤ → Text
truncate_body body limit =
    if leb_ℤ limit (pos 0) || leb_ℤ (pos (length body)) limit
    then body
    else first (pos_part limit) body ++ bytes "..."

length-first : (n : ℕ) (t : Text) → length (first n t) ≡ min n (length t)
length-first zero t = omega arith
length-first (suc n) [] = omega arith
length-first (suc n) (b ∷ t) = omega (arith, length-first n t)

first-first : (n : ℕ) (t : Text) → first n (first (suc n) t) ≡ first n t
first-first zero t = refl
first-first (suc n) [] = refl
first-first (suc n) (b ∷ t) = ap (◌∷◌ b) (first-first n t)

length-chunks_from :
    (k : ℕ) (t : Text) → length (join_chunks (chunks_from k t)) + min k (length t) ≤ length t
unfolding chunks_from join_chunks
length-chunks_from zero [] = omega arith
length-chunks_from (suc k) [] = omega arith
length-chunks_from (suc k) (b ∷ t) = omega (arith, length-chunks_from k t)
length-chunks_from zero (b ∷ t) =
    let n = width b t - 1 in
    omega (
      arith,
      length-chunks_from n t,
      length-first n t,
      length-append (first n t) (join_chunks (chunks_from n t)),
    )

length-trim_left : (cs : List Chunk) → length (join_chunks (trim_left cs)) ≤ length (join_chunks cs)
unfolding trim_left join_chunks
length-trim_left [] = omega arith
length-trim_left ((r, t) ∷ cs) = elim (Bool-cases (is_space r)) [
  | inl s ↦ rw s (omega (arith, length-trim_left cs, length-append t (join_chunks cs)))
  | inr s ↦ rw s (omega arith)
]

first-all : (n : ℕ) (t : Text) → length t ≤ n → first n t ≡ t
first-all zero [] h = refl
first-all zero (b ∷ t) h = elim h [ ]
first-all (suc n) [] h = refl
first-all (suc n) (b ∷ t) h = ap (◌∷◌ b) (first-all n t (omega (arith, h)))

length-trim_right :
    (cs : List Chunk) → length (join_chunks (trim_right cs)) ≤ length (join_chunks cs)
unfolding trim_right join_chunks
length-trim_right [] = omega arith
length-trim_right ((r, t) ∷ cs) = elim (Bool-cases (is_space r && is_empty (trim_right cs))) [
  | inl s ↦ rw s (omega arith)
  | inr s ↦ rw s (
      omega (
        arith,
        length-trim_right cs,
        length-append t (join_chunks cs),
        length-append t (join_chunks (trim_right cs)),
      ))
]

-- Trimming never makes a string longer.
length-trim_space : (t : Text) → length (trim_space t) ≤ length t
unfolding trim_space chunks
length-trim_space t = omega (
  arith,
  length-trim_right (trim_left (chunks_from 0 t)),
  length-trim_left (chunks_from 0 t),
  length-chunks_from 0 t,
)

lookahead-suc : (limit : ℕ) → limit < max_int64 → pos_part (lookahead (pos limit)) ≡ suc limit
lookahead-suc limit h = ground arith

read_limited-long :
    (body : Body) (n : ℕ)
    → n < length body.content
    → read_limited (suc n) body ≡ (first (suc n) body.content, none)
unfolding read_limited
read_limited-long body n h = ground arith

read_limited-short :
    (body : Body) (n : ℕ)
    → length body.content ≤ n
    → body.fault ≡ none
    → read_limited n body ≡ (body.content, none)
unfolding read_limited
read_limited-short body n h f = elim (Bool-cases (leb n (length body.content))) [
  | inl l ↦ rw (l, first-all n body.content h) refl
  | inr l ↦ rw (l, f) refl
]

cut_at-first : (n : ℕ) (t : Text) → n < length t → cut_at n (first (suc n) t) ≡ cut_at n t
cut_at-first n t h =
    rw
      (
        lt→ltb n (length t) h,
        lt→ltb n (length (first (suc n) t)) (omega (arith, length-first (suc n) t)),
      )
      (first-first n t)

finish-ok :
    (body : Body) (n : ℕ)
    → n ≤ max_int64
    → length body.content ≤ max_int64
    → (body.fault ≡ none) ⊎ (n < length body.content)
    → finish_read n (read_limited (pos_part (lookahead (pos n))) body)
      ≡ (trim_space (cut_at n body.content), ltb n (length body.content), none)
unfolding finish_read
finish-ok body n l b f = elim (Bool-cases (ltb n (length body.content))) [
  | inl long ↦
      let h = ltb→lt n (length body.content) long in
      let seen =
        lt→ltb n (length (first (suc n) body.content))
          (omega (arith, length-first (suc n) body.content, h)) in
      rw
        (
          lookahead-suc n (omega (arith, h, b)),
          read_limited-long body n h,
          cut_at-first n body.content h,
          seen,
          long,
        )
        refl
  | inr short ↦
      let whole =
        read_limited-short body (pos_part (lookahead (pos n))) (ground (arith, short))
          (ground (arith, short, f)) in
      rw whole refl
]

-- With the limit `n`, which is 4096 for a limit that is not positive, readResponseBody returns the
-- trimmed bytes up to the limit, and whether there were more, unless the read fails before the limit
-- is passed. The body has at most as many bytes as an int64 counts.
pub read_response_body_ok :
    (body : Body) (limit : ℤ) (n : ℕ)
    → effective_limit limit ≡ pos n
    → n ≤ max_int64
    → length body.content ≤ max_int64
    → (body.fault ≡ none) ⊎ (n < length body.content)
    → read_response_body body limit
      ≡ (trim_space (cut_at n body.content), ltb n (length body.content), none)
unfolding read_response_body
read_response_body_ok body limit n e l b f = rw e (finish-ok body n l b f)

cut_at-short : (n : ℕ) (t : Text) → length (cut_at n t) ≤ n
cut_at-short n t = elim (Bool-cases (ltb n (length t))) [
  | inl l ↦ rw l (omega (arith, length-first n t))
  | inr l ↦ rw l (ground (arith, l))
]

finish_read-short : (n : ℕ) (x : Text × Option Error) → length (finish_read n x).0 ≤ n
unfolding finish_read
finish_read-short n (content, some e) = omega arith
finish_read-short n (content, none) =
    omega (arith, length-trim_space (cut_at n content), cut_at-short n content)

-- With the limit `n`, which is 4096 for a limit that is not positive, what readResponseBody returns
-- has at most `n` bytes, and truncateBody leaves it as it is.
truncate-read :
    (body : Body) (limit : ℤ) (n : ℕ)
    → effective_limit limit ≡ pos n
    → let text = (read_response_body body limit).0 in
      (length text ≤ n) × (truncate_body text limit ≡ text)
unfolding truncate_body read_response_body
truncate-read body limit n e =
    let short = finish_read-short n (read_limited (pos_part (lookahead (pos n))) body) in
    rw e (short, kept limit n _ e short)
  where
    kept :
        (limit : ℤ) (n : ℕ) (text : Text)
        → effective_limit limit ≡ pos n
        → length text ≤ n
        → truncate_body text limit ≡ text
    kept limit n text e h = ground (arith, e, h)
