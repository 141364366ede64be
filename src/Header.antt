-- ===== src/Header.antt =====
-- internal/header/header.go: names and values of header fields.
pub mod Names
use notifykit.Base.{
  ℕ, Bool, true, false, not, ◌&&◌, ◌||◌, List, [], ◌∷◌, leb, ◌==◌, is_empty, if◌then◌else◌,
}
use notifykit.Text.{Text, bytes, text_eq}
use notifykit.Text.Runes.{Chunk, chunks, trim_space}

-- The characters of the switch.
abbrev pub punctuation : Text
punctuation = bytes "!#$%&'*+-.^_`|~"

unfoldable pub is_one_of : Text → ℕ → Bool
is_one_of [] r = false
is_one_of (c ∷ cs) r = r == c || is_one_of cs r

unfoldable pub valid_field_name_char : ℕ → Bool
unfolding is_one_of
valid_field_name_char r =
    if leb 97 r && leb r 122
    then true
    else if leb 65 r && leb r 90
    then true
    else if leb 48 r && leb r 57
    then true
    else is_one_of punctuation r

-- The loop over the runes of the name.
unfoldable pub all_valid : List Chunk → Bool
unfolding valid_field_name_char
all_valid [] = true
all_valid ((r, t) ∷ cs) = valid_field_name_char r && all_valid cs

unfoldable pub valid_field_name : Text → Bool
valid_field_name name =
    if is_empty name || not (text_eq (trim_space name) name) then false else all_valid (chunks name)

-- strings.ContainsAny(value, "\r\n")
unfoldable pub contains_newline : Text → Bool
contains_newline [] = false
contains_newline (b ∷ bs) = (b == 13 || b == 10) || contains_newline bs
