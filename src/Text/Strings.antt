-- ===== src/Text/Strings.antt =====
-- The functions of Go's packages strings and strconv that the code uses, over bytes.
use notifykit.Base.{
  ℕ, zero, suc, ◌+◌, ◌-◌, ◌/◌, ◌%◌, ℤ, pos, negsuc, Bool, true, false, ◌&&◌, ◌||◌, List, [], ◌∷◌,
  ◌++◌, leb, ltb, length, ◌==◌, if◌then◌else◌,
}
use notifykit.Text.{Text, text_eq, text_leb, bytes}

-- strings.HasPrefix, the prefix first.
unfoldable pub has_prefix : Text → Text → Bool
has_prefix [] s = true
has_prefix (p ∷ ps) [] = false
has_prefix (p ∷ ps) (c ∷ cs) = p == c && has_prefix ps cs

-- strings.HasSuffix, the suffix first.
unfoldable pub has_suffix : Text → Text → Bool
has_suffix suffix [] = text_eq suffix []
has_suffix suffix (c ∷ cs) = text_eq suffix (c ∷ cs) || has_suffix suffix cs

-- strings.Contains of one byte.
unfoldable pub contains_byte : ℕ → Text → Bool
contains_byte b [] = false
contains_byte b (c ∷ cs) = c == b || contains_byte b cs

-- strings.TrimPrefix and strings.TrimSuffix, the text first.
unfoldable pub drop : ℕ → Text → Text
drop zero s = s
drop (suc n) [] = []
drop (suc n) (c ∷ cs) = drop n cs

unfoldable pub trim_prefix : Text → Text → Text
unfolding has_prefix drop
trim_prefix s prefix = if has_prefix prefix s then drop (length prefix) s else s

unfoldable pub trim_suffix : Text → Text → Text
trim_suffix [] suffix = []
trim_suffix (c ∷ cs) suffix =
    let rest = trim_suffix cs suffix in if text_eq (c ∷ cs) suffix then [] else c ∷ rest

-- strings.ReplaceAll, for an `old` that is not empty: the next `skip` bytes belong to a match.
unfoldable pub replace_from : Text → Text → ℕ → Text → Text
unfolding has_prefix
replace_from old new skip [] = []
replace_from old new (suc skip) (c ∷ cs) = replace_from old new skip cs
replace_from old new zero (c ∷ cs) =
    let matched = new ++ replace_from old new (length old - 1) cs in
    let copied = c ∷ replace_from old new 0 cs in
    if has_prefix old (c ∷ cs) then matched else copied

unfoldable pub replace_all : Text → Text → Text → Text
unfolding replace_from
replace_all s old new = replace_from old new 0 s

-- strings.Join
unfoldable pub join_texts : List Text → Text → Text
join_texts [] sep = []
join_texts (t ∷ []) sep = t
join_texts (t ∷ u ∷ us) sep = t ++ (sep ++ join_texts (u ∷ us) sep)

-- strings.ToLower of an ASCII text.
abbrev pub lower : ℕ → ℕ
lower c = if leb 65 c && leb c 90 then c + 32 else c

unfoldable pub to_lower : Text → Text
to_lower [] = []
to_lower (c ∷ cs) = lower c ∷ to_lower cs

-- strings.EqualFold of ASCII texts.
unfoldable pub equal_fold : Text → Text → Bool
unfolding to_lower
equal_fold s t = text_eq (to_lower s) (to_lower t)

-- The decimal digits of a number, before those of `acc`. The fuel is for as many digits.
unfoldable pub digits_of : ℕ → ℕ → Text → Text
digits_of zero n acc = acc
digits_of (suc fuel) n acc =
    let more = digits_of fuel (n / 10) ((48 + n % 10) ∷ acc) in
    if ltb n 10 then (48 + n % 10) ∷ acc else more

-- strconv.Itoa
unfoldable pub itoa : ℤ → Text
unfolding digits_of
itoa (pos n) = digits_of 20 n []
itoa (negsuc n) = 45 ∷ digits_of 20 (suc n) []

-- slices.Sorted of texts, as an insertion sort.
unfoldable pub insert_text : Text → List Text → List Text
insert_text t [] = t ∷ []
insert_text t (u ∷ us) = if text_leb t u then t ∷ u ∷ us else u ∷ insert_text t us

unfoldable pub sort_texts : List Text → List Text
unfolding insert_text
sort_texts [] = []
sort_texts (t ∷ ts) = insert_text t (sort_texts ts)

-- net.JoinHostPort
unfoldable pub join_host_port : Text → Text → Text
unfolding contains_byte
join_host_port host port =
    if contains_byte 58 host
    then bytes "[" ++ (host ++ (bytes "]:" ++ port))
    else host ++ (bytes ":" ++ port)
