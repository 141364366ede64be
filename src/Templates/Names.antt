-- ===== src/Templates/Names.antt =====
-- templates/templates.go: the names of the built-in templates, and reading by name.
use mathlib.Core.List.{Memᴰ}
use notifykit.Base.{
  ℕ, ◌≤◌, ◌<◌, ◌≡◌, ◌≢◌, refl, sym, ap, subst, ◌∙◌, true, false, some, ◌⊎◌, All-at, List, [], ◌∷◌,
  ◌++◌, All, arith, is_empty_iff, Bool, Bool-cases, inl, inr,
}
use notifykit.Text.{Text, bytes, text_eq, text_eq_sound}
use notifykit.Text.Runes.{is_space}
use notifykit.Text.Strings.{has_prefix, trim_prefix, trim_suffix, contains_byte, drop}
use notifykit.Text.Visible.{IsVisible, trim_space-All, trim_suffix-append, sort_texts-All}
use notifykit.Notify.Error.{message}
use notifykit.Notify.Result.{ok, err}
use notifykit.Templates.{
  Paths, FileSystem, template_names, builtin_names, builtin_name, read_builtin,
}

-- A printable ASCII character that separates no parts of a path.
abbrev pub IsPlainByte : ℕ → Type 0
IsPlainByte b = (33 ≤ b) × (b < 127) × (b ≢ 47) × (b ≢ 92)

plain-IsVisible : (b : ℕ) → IsPlainByte b → IsVisible b
unfolding is_space
plain-IsVisible b h = ground arith

plain-All : (s : Text) → All IsPlainByte s → All IsVisible s
plain-All [] h = tt
plain-All (b ∷ bs) (h, hs) = (plain-IsVisible b h, plain-All bs hs)

abbrev pub named : Text → Text
named name = bytes "builtin:" ++ name

named-All : (name : Text) → All IsPlainByte name → All IsVisible (named name)
unfolding is_space
named-All name h = (
  (omega arith, refl),
  (
    (omega arith, refl),
    (
      (omega arith, refl),
      (
        (omega arith, refl),
        (
          (omega arith, refl),
          ((omega arith, refl), ((omega arith, refl), ((omega arith, refl), plain-All name h))),
        ),
      ),
    ),
  ),
)

builtin_name-named : (name : Text) → All IsPlainByte name → builtin_name (named name) ≡ name
unfolding builtin_name trim_prefix has_prefix drop
builtin_name-named name h =
    rw (trim_space-All (named name) (named-All name h)) (trim_space-All name (plain-All name h))

not-contains : (b : ℕ) (name : Text) → All (λ c. c ≢ b) name → contains_byte b name ≡ false
unfolding contains_byte
not-contains b [] h = refl
not-contains b (c ∷ cs) (h, hs) = ground (arith, not-contains b cs hs)

slashes : (name : Text) → All IsPlainByte name → All (λ c. c ≢ 47) name × All (λ c. c ≢ 92) name
slashes [] h = (tt, tt)
slashes (b ∷ bs) (h, hs) = let (x, y) = slashes bs hs in ((h.2, x), (h.3, y))

-- What path.Ext returns is the end of the name.
abbrev pub IsExtension : Paths → Type 0
IsExtension paths =
    (name : Text) → paths.ext name ≡ bytes ".tmpl" → (stem : Text) × (name ≡ stem ++ bytes ".tmpl")

module _ (fs : FileSystem) where
  -- The name is read from the file with the extension.
  abbrev pub IsReadable : Text → Type 0
  IsReadable name =
      (body : Text) × (fs.read_file (name ++ bytes ".tmpl") ≡ ok body)
      × (read_builtin (some fs) (named name) ≡ ok (name ++ bytes ".tmpl", body))

  -- There is the file with the extension.
  abbrev HasFile : Text → Type 0
  HasFile name = (body : Text) × (fs.read_file (name ++ bytes ".tmpl") ≡ ok body)

  stem-IsReadable :
      (name : Text) → HasFile name → name ≢ [] → All IsPlainByte name → IsReadable name
  unfolding read_builtin
  stem-IsReadable name (body, found) given plain =
      let (s, k) = slashes name plain in
      (
        body,
        found,
        rw
            (
              read_builtin,
              builtin_name-named name plain,
              (is_empty_iff name).1 given,
              not-contains 47 name s,
              not-contains 92 name k,
              found,
            )
            refl,
      )

  -- An entry of the directory that is a file can be read.
  abbrev pub HasFiles : List (Text × Bool) → Type 0
  HasFiles entries =
      All (λ entry. entry.1 ≡ false → (body : Text) × (fs.read_file entry.0 ≡ ok body)) entries

  empty_refused :
      read_builtin (some fs) (named [])
      ≡ err (message (bytes "built-in template name must not be empty") [])
  unfolding read_builtin
  empty_refused = rw (builtin_name-named [] tt, read_builtin) refl

  module _ (paths : Paths) where
    entry-HasFile :
        IsExtension paths
        → (name : Text) → (body : Text) × (fs.read_file name ≡ ok body)
        → paths.ext name ≡ bytes ".tmpl"
        → HasFile (trim_suffix name (bytes ".tmpl"))
    entry-HasFile ends name (body, found) e =
        let (stem, same) = ends name e in
        let cut = ap (λ x. trim_suffix x (bytes ".tmpl")) same ∙ trim_suffix-append stem _ _ in
        subst HasFile (sym cut) (body, ap fs.read_file (sym same) ∙ found)

    template_names-HasFile :
        IsExtension paths
        → (entries : List (Text × Bool)) → HasFiles entries
        → All HasFile (template_names paths entries)
    unfolding template_names
    template_names-HasFile ends [] h = tt
    template_names-HasFile ends ((name, true) ∷ entries) h = template_names-HasFile ends entries h.1
    template_names-HasFile ends ((name, false) ∷ entries) h =
        elim (Bool-cases (text_eq (paths.ext name) (bytes ".tmpl"))) [
          | inl template ↦ rw template (
            entry-HasFile ends name (h.0 refl) (text_eq_sound _ _ template),
            template_names-HasFile ends entries h.1,
          )
          | inr other ↦ rw other (template_names-HasFile ends entries h.1)
        ]

    builtin_names-HasFile :
        IsExtension paths
        → (entries : List (Text × Bool)) → fs.read_dir (bytes ".") ≡ ok entries
        → HasFiles entries
        → All HasFile (builtin_names paths (some fs))
    unfolding builtin_names
    builtin_names-HasFile ends entries listed h = rw listed (
        sort_texts-All HasFile (template_names paths entries)
          (template_names-HasFile ends entries h))

    -- Where the files of the directory can be read, every name that names returns, if it is not empty
    -- and of printable characters other than the separators of a path, can be read back under the
    -- builtin prefix, from the file with the name and the extension; and read refuses the empty name,
    -- which names returns for a file that is called just as the extension. What path.Ext returns is the
    -- end of a name.
    pub builtin_names-IsReadable :
        IsExtension paths
        → (entries : List (Text × Bool)) → fs.read_dir (bytes ".") ≡ ok entries
        → HasFiles entries
        → (name : Text) → Memᴰ name (builtin_names paths (some fs))
        → All IsPlainByte name
        → ((name ≢ []) × IsReadable name)
          ⊎ ((name ≡ [])
              × (read_builtin (some fs) (named name)
                  ≡ err (message (bytes "built-in template name must not be empty") [])))
    builtin_names-IsReadable ends entries listed h [] m plain = inr (refl, empty_refused)
    builtin_names-IsReadable ends entries listed h (b ∷ bs) m plain = inl (
      λ e. cc,
      stem-IsReadable (b ∷ bs)
          (All-at HasFile (builtin_names paths (some fs)) (b ∷ bs) m
            (builtin_names-HasFile ends entries listed h))
          (λ e. cc) plain,
    )
