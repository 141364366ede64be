-- ===== src/Text/Runes.antt =====
-- The UTF-8 decoding of Go's `range` over a string, and `strings.TrimSpace`.
use notifykit.Base.{
  ℕ, zero, suc, ◌+◌, ◌-◌, ◌*◌, ◌<◌, ◌≡◌, refl, Bool, ◌&&◌, ◌||◌, false, List, [], ◌∷◌, ◌++◌, All,
  arith, ltb, leb, ◌==◌, is_empty, if◌then◌else◌, lt→ltb, ap, ◌∙◌,
}
use notifykit.Text.{Text}

-- A rune with the bytes that it was read from.
abbrev pub Chunk : Type 0
Chunk = ℕ × Text

abbrev is_between : ℕ → ℕ → ℕ → Bool
is_between lo hi b = leb lo b && leb b hi

abbrev is_cont : ℕ → Bool
is_cont b = is_between 128 191 b

-- The least and the largest second byte of a sequence of three or four bytes: longer forms of a
-- smaller rune, surrogates and values above 10FFFF are not UTF-8.
abbrev second_ok : ℕ → ℕ → Bool
second_ok b c =
    if b == 224
    then is_between 160 191 c
    else if b == 237
    then is_between 128 159 c
    else if b == 240
    then is_between 144 191 c
    else if b == 244
    then is_between 128 143 c
    else is_cont c

-- The number of bytes of the sequence that starts with `b`, or 1 where there is none.
unfoldable pub width : ℕ → Text → ℕ
width b [] = 1
width b (c ∷ []) = if is_between 194 223 b && is_cont c then 2 else 1
width b (c ∷ d ∷ []) =
    if is_between 194 223 b && is_cont c
    then 2
    else if is_between 224 239 b && second_ok b c && is_cont d
    then 3
    else 1
width b (c ∷ d ∷ e ∷ rest) =
    if is_between 194 223 b && is_cont c
    then 2
    else if is_between 224 239 b && second_ok b c && is_cont d
    then 3
    else if is_between 240 244 b && second_ok b c && is_cont d && is_cont e
    then 4
    else 1

-- The rune of a sequence of that many bytes; a byte that starts none is the replacement character.
unfoldable pub rune_of : ℕ → Text → ℕ
rune_of b [] = if ltb b 128 then b else 65533
rune_of b (c ∷ []) = (b - 192) * 64 + (c - 128)
rune_of b (c ∷ d ∷ []) = (b - 224) * 4096 + (c - 128) * 64 + (d - 128)
rune_of b (c ∷ d ∷ e ∷ rest) = (b - 240) * 262144 + (c - 128) * 4096 + (d - 128) * 64 + (e - 128)

abbrev pub first : ℕ → Text → Text
first zero bs = []
first (suc n) [] = []
first (suc n) (b ∷ bs) = b ∷ first n bs

-- The runes of a string; the first `skip` bytes belong to a rune read before.
unfoldable pub chunks_from : ℕ → Text → List Chunk
unfolding width rune_of
chunks_from skip [] = []
chunks_from (suc skip) (b ∷ bs) = chunks_from skip bs
chunks_from zero (b ∷ bs) =
    let tail = first (width b bs - 1) bs in
    (rune_of b tail, b ∷ tail) ∷ chunks_from (width b bs - 1) bs

unfoldable pub chunks : Text → List Chunk
unfolding chunks_from
chunks t = chunks_from 0 t

-- unicode.IsSpace
unfoldable pub is_space : ℕ → Bool
is_space r =
    is_between 9 13 r
    || r == 32
    || r == 133
    || r == 160
    || r == 5760
    || is_between 8192 8202 r
    || is_between 8232 8233 r
    || r == 8239
    || r == 8287
    || r == 12288

unfoldable pub trim_left : List Chunk → List Chunk
unfolding is_space
trim_left [] = []
trim_left ((r, t) ∷ cs) = let rest = trim_left cs in if is_space r then rest else (r, t) ∷ cs

unfoldable pub trim_right : List Chunk → List Chunk
unfolding is_space
trim_right [] = []
trim_right ((r, t) ∷ cs) =
    let rest = trim_right cs in if is_space r && is_empty rest then [] else (r, t) ∷ rest

unfoldable pub join_chunks : List Chunk → Text
join_chunks [] = []
join_chunks ((r, t) ∷ cs) = t ++ join_chunks cs

unfoldable pub trim_space : Text → Text
unfolding chunks trim_left trim_right join_chunks
trim_space t = join_chunks (trim_right (trim_left (chunks t)))

abbrev pub IsAscii : ℕ → Type 0
IsAscii b = b < 128

-- One chunk for each byte.
abbrev pub singles : Text → List Chunk
singles [] = []
singles (b ∷ bs) = (b, b ∷ []) ∷ singles bs

pub width-ascii : (b : ℕ) (bs : Text) → b < 128 → width b bs ≡ 1
unfolding width
width-ascii b [] h = refl
width-ascii b (c ∷ []) h = ground arith
width-ascii b (c ∷ d ∷ []) h = ground arith
width-ascii b (c ∷ d ∷ e ∷ rest) h = ground arith

-- A string of ASCII bytes is read byte by byte.
pub chunks-ascii : (t : Text) → All IsAscii t → chunks_from 0 t ≡ singles t
unfolding chunks_from rune_of
chunks-ascii [] h = refl
chunks-ascii (b ∷ bs) (h, hs) =
    rw (width-ascii b bs h, lt→ltb b 128 h) (ap (◌∷◌ (b, b ∷ [])) (chunks-ascii bs hs))

-- A rune below 128 is read from a byte below 128.
pub rune_of-ascii : (b : ℕ) (bs : Text) → rune_of b (first (width b bs - 1) bs) < 128 → b < 128
unfolding width rune_of
rune_of-ascii b [] h = ground arith
rune_of-ascii b (c ∷ []) h = ground arith
rune_of-ascii b (c ∷ d ∷ []) h = ground arith
rune_of-ascii b (c ∷ d ∷ e ∷ rest) h = ground arith

pub rune_of-single : (b : ℕ) (bs : Text) → b < 128 → rune_of b (first (width b bs - 1) bs) ≡ b
unfolding rune_of
rune_of-single b bs h = rw (width-ascii b bs h, lt→ltb b 128 h) refl

-- The first chunk of a text that begins with an ASCII byte.
pub chunks_from-ascii :
    (b : ℕ) (bs : Text) → b < 128 → chunks_from 0 (b ∷ bs) ≡ (b, b ∷ []) ∷ chunks_from 0 bs
unfolding chunks_from rune_of
chunks_from-ascii b bs h = rw (width-ascii b bs h, lt→ltb b 128 h) refl

trim_visible :
    (r b : ℕ) (t : Text) (cs : List Chunk)
    → is_space r ≡ false
    → is_empty (join_chunks (trim_right (trim_left ((r, b ∷ t) ∷ cs)))) ≡ false
unfolding trim_left trim_right join_chunks
trim_visible r b t cs h = rw (h, trim_left, h, trim_right) refl

-- A text that begins with a visible ASCII character is not blank.
pub trim_space-visible :
    (b : ℕ) (bs : Text) → b < 128 → is_space b ≡ false → is_empty (trim_space (b ∷ bs)) ≡ false
unfolding trim_space chunks
trim_space-visible b bs h k =
    ap (λ (cs : List Chunk). is_empty (join_chunks (trim_right (trim_left cs))))
      (chunks_from-ascii b bs h)
    ∙ trim_visible b b [] (chunks_from 0 bs) k
