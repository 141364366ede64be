-- ===== src/Templates/Sources.antt =====
-- templates/templates.go: what readSource reads, and what parseOptions accepts.
use notifykit.Base.{
  ℕ, ◌≡◌, ◌≢◌, refl, ap, ◌⊎◌, ◌↔◌, inl, inr, true, false, ◌||◌, Option, some, List, [], ◌∷◌, ◌++◌,
  is_empty, is_empty_iff, or-false, subst, Bool-cases, Option-cases, arith,
}
use notifykit.Text.{Text, bytes, text_eq_sound}
use notifykit.Text.Runes.{trim_space}
use notifykit.Text.Strings.{contains_byte}
use notifykit.Notify.Result.{Result, ok, err, ◌>>◌, Result-cases}
use notifykit.Templates.{
  Paths, FileSystem, Options, Choice, is_builtin, builtin_name, read_builtin, read_trimmed,
  read_source, apply_choices, first_options, parse_options, validate_missing_key, or_error_policy,
}

contains_byte-append :
    (b : ℕ) (s t : Text)
    → contains_byte b s ≡ false
    → contains_byte b t ≡ false
    → contains_byte b (s ++ t) ≡ false
unfolding contains_byte
contains_byte-append b [] t h k = k
contains_byte-append b (c ∷ s) t h k = ground (arith, contains_byte-append b s t)

-- What was read is a plain file of the file system, under the name of a built-in template.
abbrev pub IsBuiltinRead : Option FileSystem → Text → Text × Text → Type 0
IsBuiltinRead files source out =
    (builtin_name source ≢ [])
    × (out.0 ≡ builtin_name source ++ bytes ".tmpl")
    × (contains_byte 47 out.0 ≡ false)
    × (contains_byte 92 out.0 ≡ false)
    × ((fs : FileSystem) × (files ≡ some fs) × (fs.read_file out.0 ≡ ok out.1))

abbrev pub IsFileRead : Paths → Text → Text × Text → Type 0
IsFileRead paths source out =
    (source ≢ []) × (paths.read_file source ≡ ok out.1) × (out.0 ≡ paths.base source)

-- The property of what a function returns, if it returns no error.
abbrev pub Returns : {A : Type 0} → (A → Type 0) → Result A → Type 0
Returns P (ok a) = P a
Returns P (err e) = Unit

read_builtin-Returns :
    (files : Option FileSystem) (source : Text)
    → Returns (IsBuiltinRead files source) (read_builtin files source)
unfolding read_builtin
read_builtin-Returns files source = elim (Bool-cases (is_empty (builtin_name source))) [
  | inl nameless ↦ rw nameless tt
  | inr named ↦
      elim (Bool-cases
        (contains_byte 47 (builtin_name source) || contains_byte 92 (builtin_name source))) [
          | inl nested ↦ rw (named, nested) tt
          | inr plain ↦ elim (Option-cases files) [
            | inl nowhere ↦ rw (named, plain, nowhere) tt
            | inr (fs, there) ↦
                elim (Result-cases (fs.read_file (builtin_name source ++ bytes ".tmpl"))) [
                  | inl (e, failed) ↦ rw (named, plain, there, failed) tt
                  | inr (body, found) ↦
                      (let (no_slash, no_backslash) = or-false _ _ plain in
                        rw (named, plain, there, found)
                          (
                            (is_empty_iff _).0 named,
                            refl,
                            contains_byte-append 47 (builtin_name source) _ no_slash
                                (unfold contains_byte in refl),
                            contains_byte-append 92 (builtin_name source) _ no_backslash
                                (unfold contains_byte in refl),
                            (fs, refl, found),
                          ))
                ]
          ]
        ]
]

module _ (paths : Paths) (files : Option FileSystem) where
  abbrev pub IsRead : Text → Text × Text → Type 0
  IsRead source out =
      ((is_builtin source ≡ true) × IsBuiltinRead files source out)
      ⊎ ((is_builtin source ≡ false) × IsFileRead paths source out)

  lift_builtin :
      (source : Text) (r : Result (Text × Text))
      → is_builtin source ≡ true
      → Returns (IsBuiltinRead files source) r
      → Returns (IsRead source) r
  lift_builtin source (ok a) b h = inl (b, h)
  lift_builtin source (err e) b h = tt

  read_source-Returns :
      (text : Text) → Returns (IsRead (trim_space text)) (read_source paths files text)
  unfolding read_source read_trimmed
  read_source-Returns text = elim (Bool-cases (is_empty (trim_space text))) [
    | inl blank ↦ rw blank tt
    | inr given ↦ elim (Bool-cases (is_builtin (trim_space text))) [
      | inl builtin ↦
          rw (given, builtin)
            (lift_builtin (trim_space text) (read_builtin files (trim_space text)) builtin
              (read_builtin-Returns files (trim_space text)))
      | inr local ↦ elim (Result-cases (paths.read_file (trim_space text))) [
        | inl (e, failed) ↦ rw (given, local, failed) tt
        | inr (body, found) ↦
            rw (given, local, found) (inr (local, ((is_empty_iff _).0 given, found, refl)))
      ]
    ]
  ]

  -- What readSource returns was read under the trimmed source: a built-in template from a file of the
  -- given file system whose name has no path separator and is the name of the template with the
  -- extension, and any other from the path, on the disk.
  pub read_source-IsRead :
      (text : Text) (out : Text × Text)
      → read_source paths files text ≡ ok out
      → IsRead (trim_space text) out
  read_source-IsRead text out h =
      subst (Returns (IsRead (trim_space text))) h (read_source-Returns text)

-- The policies for missing keys that text/template knows, by the default of parseOptions for none.
abbrev pub IsPolicy : Text → Type 0
IsPolicy policy = (policy ≡ bytes "default") ⊎ ((policy ≡ bytes "zero") ⊎ (policy ≡ bytes "error"))

validate_missing_key_iff : (policy : Text) → (validate_missing_key policy ≡ ok tt) ↔ IsPolicy policy
unfolding validate_missing_key
validate_missing_key_iff policy = (
  (λ h. ground (
    arith,
    text_eq_sound policy (bytes "default"),
    text_eq_sound policy (bytes "zero"),
    text_eq_sound policy (bytes "error"),
  )),
  λ p. elim p [ inl e ↦ rw e refl | inr (inl e) ↦ rw e refl | inr (inr e) ↦ rw e refl ],
)

-- parseOptions returns just the configuration that its options leave, with "error" where they leave no
-- policy for missing keys, and only if text/template knows the policy.
parse_options_iff :
    {Func : Type 0} (opts : List (Option (Choice Func))) (cfg : Options Func)
    → (parse_options opts ≡ ok cfg)
      ↔ ((or_error_policy (apply_choices opts first_options) ≡ cfg) × IsPolicy cfg.missing_key)
unfolding parse_options
parse_options_iff {Func} opts cfg = go (or_error_policy (apply_choices opts first_options))
  where
    go :
        (left : Options Func)
        → ((validate_missing_key left.missing_key >> ok left) ≡ ok cfg)
          ↔ ((left ≡ cfg) × IsPolicy cfg.missing_key)
    go left = elim (Result-cases (validate_missing_key left.missing_key)) [
      | inl (e, bad) ↦ rw bad (
        (λ h. cc),
        λ p.
            (let known = (validate_missing_key_iff cfg.missing_key).1 p.1 in
              let same = ap (λ c. validate_missing_key c.missing_key) p.0 in cc),
      )
      | inr (tt, good) ↦ rw good (
        (λ h.
            (let same : left ≡ cfg = cc in
              (
                same,
                subst (λ c. IsPolicy c.missing_key) same
                    ((validate_missing_key_iff left.missing_key).0 good),
              ))),
        λ p. ap ok p.0,
      )
    ]
