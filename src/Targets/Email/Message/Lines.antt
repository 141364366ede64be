-- ===== src/Targets/Email/Message/Lines.antt =====
-- targets/email/email.go, buildEmail: the message that a mail reader gets.
use notifykit.Base.{
  ◌≡◌, refl, ◌∙◌, Bool, true, false, Option, none, some, List, [], ◌∷◌, ◌++◌, All, ◌==◌, is_empty,
  if◌then◌else◌, or-false,
}
use mathlib.Core.List.{append_assoc, append-nil}
use notifykit.Text.{Text}
use notifykit.Text.Runes.{chunks, chunks_from, trim_left, trim_right, join_chunks, trim_space}
use notifykit.Header.{contains_newline}
use notifykit.Targets.Email.Message.{crlf, write_lines}

-- How a mail reader takes a message apart: a header line ends with CR LF, the first empty line ends
-- the header, and a CR or an LF elsewhere in the header is an error. `line` is the line so far, and
-- `after_cr` says that its last byte was a CR.
unfoldable pub read_header : Bool → Text → List Text → Text → Option (List Text × Text)
read_header after_cr line lines [] = none
read_header true line lines (b ∷ bs) =
    let next = read_header false [] (lines ++ (line ∷ [])) bs in
    if b == 10 then (if is_empty line then some (lines, bs) else next) else none
read_header false line lines (b ∷ bs) =
    let ended = read_header true line lines bs in
    let more = read_header false (line ++ (b ∷ [])) lines bs in
    if b == 13 then ended else if b == 10 then none else more

-- The header lines and the body of a message.
unfoldable pub read_message : Text → Option (List Text × Text)
unfolding read_header
read_message message = read_header false [] [] message

-- A line that can stand in a header: not blank, and without line ends.
abbrev pub IsHeaderLine : Text → Type 0
IsHeaderLine line = (contains_newline line ≡ false) × (is_empty (trim_space line) ≡ false)

read_header-line :
    (line pre : Text) (lines : List Text) (rest : Text)
    → contains_newline line ≡ false
    → read_header false pre lines (line ++ rest) ≡ read_header false (pre ++ line) lines rest
unfolding read_header contains_newline
read_header-line [] pre lines rest h = rw append-nil refl
read_header-line (b ∷ bs) pre lines rest h =
    let (here, later) = or-false _ (contains_newline bs) h in
    let (cr, lf) = or-false (b == 13) (b == 10) here in
    rw (cr, lf) (read_header-line bs (pre ++ (b ∷ [])) lines rest later ∙ rw append_assoc refl)

read_header-end :
    (line : Text) (lines : List Text) (rest : Text)
    → is_empty line ≡ false
    → read_header false line lines (13 ∷ 10 ∷ rest)
      ≡ read_header false [] (lines ++ (line ∷ [])) rest
unfolding read_header
read_header-end line lines rest h = rw h refl

-- A line that is not blank is not empty.
trimmed_line : (line : Text) → is_empty (trim_space line) ≡ false → is_empty line ≡ false
unfolding trim_space chunks trim_left trim_right join_chunks chunks_from
trimmed_line [] h = cc
trimmed_line (b ∷ bs) h = refl

-- The end of the header: an empty line.
read_header_stop :
    (lines : List Text) (body : Text)
    → read_header false [] lines (13 ∷ 10 ∷ body) ≡ some (lines, body)
unfolding read_header
read_header_stop lines body = refl

-- Reading undoes the writing of the header lines.
pub read_header-write_lines :
    (ls lines : List Text) (body : Text)
    → All IsHeaderLine ls
    → read_header false [] lines (write_lines ls ++ (crlf ++ body)) ≡ some (lines ++ ls, body)
unfolding write_lines
read_header-write_lines [] lines body h = read_header_stop lines body ∙ rw append-nil refl
read_header-write_lines (l ∷ ls) lines body ((h, k), hs) =
    rw (k, append_assoc l (crlf ++ write_lines ls) (crlf ++ body))
      (read_header-line l [] lines _ h
        ∙ read_header-end l lines _ (trimmed_line l k)
        ∙ read_header-write_lines ls (lines ++ (l ∷ [])) body hs
        ∙ rw append_assoc refl)

pub contains_newline-append :
    (s t : Text)
    → contains_newline s ≡ false
    → contains_newline t ≡ false
    → contains_newline (s ++ t) ≡ false
unfolding contains_newline
contains_newline-append [] t h k = k
contains_newline-append (b ∷ bs) t h k =
    let (here, later) = or-false _ (contains_newline bs) h in
    rw (here, contains_newline-append bs t later k) refl
