-- ===== src/Templates.antt =====
-- templates/templates.go and templates/html.go: the options of the parsers, the sources of templates,
-- and rendering. text/template and html/template are the record Engine.
pub mod Sources
pub mod Strings
pub mod Names
pub mod Loading
use notifykit.Base.{
  Bool, true, false, not, ◌||◌, Option, none, some, List, [], ◌∷◌, ◌++◌, is_empty, if◌then◌else◌,
}
use notifykit.Text.{Text, bytes, text_eq, text_or}
use notifykit.Text.Maps.{assign, copy_into}
use notifykit.Text.Runes.{trim_space}
use notifykit.Text.Strings.{has_prefix, trim_prefix, trim_suffix, contains_byte, sort_texts}
use notifykit.Notify.Error.{Error, message, wrapped}
use notifykit.Notify.Result.{Result, ok, err, ◌>>=◌, ◌>>◌, refuse_if, map_error}

-- options; the string type MissingKey is its text.
pub record Options (Func : Type 0) : Type 0 where
  pub missing_key : Text
  pub funcs : List (Text × Func)
  pub use_default_funcs : Bool

-- An option is a function that sets fields.
abbrev pub Choice : Type 0 → Type 0
Choice Func = Options Func → Options Func

-- New(name), Option, Funcs and Parse of a template package, Execute into a buffer, and
-- tmplfuncs.FuncMap.
pub record Engine (Func Parsed Data : Type 0) : Type 0 where
  pub parse_with : Text → Text → List (Text × Func) → Text → Result Parsed
  pub execute : Parsed → Data → Result Text
  pub default_funcs : List (Text × Func)

-- fs.ReadFile, Open with io.ReadAll, and fs.ReadDir of a file system: names, and whether they are
-- directories.
pub record FileSystem : Type 0 where
  pub read_file : Text → Result Text
  pub open_file : Text → Result Text
  pub read_dir : Text → Result (List (Text × Bool))

-- os.ReadFile, filepath.Base and path.Ext.
pub record Paths : Type 0 where
  pub read_file : Text → Result Text
  pub base : Text → Text
  pub ext : Text → Text

unfoldable pub validate_missing_key : Text → Result (Unit {0})
validate_missing_key policy =
    refuse_if
      (not (
        text_eq policy (bytes "default")
        || (text_eq policy (bytes "zero") || text_eq policy (bytes "error"))))
      (message (bytes "invalid missing key policy %q") (policy ∷ []))

module _ {Func : Type 0} where
  unfoldable pub with_missing_key : Text → Choice Func
  with_missing_key policy cfg = record cfg { missing_key = policy }

  unfoldable pub with_default_funcs : Choice Func
  with_default_funcs cfg = record cfg { use_default_funcs = true }

  unfoldable pub with_func : Text → Func → Choice Func
  with_func name fn cfg = record cfg { funcs = assign name fn cfg.funcs }

  unfoldable pub with_funcs : List (Text × Func) → Choice Func
  with_funcs funcs cfg = record cfg { funcs = copy_into cfg.funcs funcs }

  -- The loop over the options, in which a nil option is passed over.
  unfoldable pub apply_choices : List (Option (Choice Func)) → Choice Func
  apply_choices [] cfg = cfg
  apply_choices (none ∷ opts) cfg = apply_choices opts cfg
  apply_choices (some opt ∷ opts) cfg = apply_choices opts (opt cfg)

  abbrev pub first_options : Options Func
  first_options = record { missing_key = bytes "error"; funcs = []; use_default_funcs = false }

  abbrev pub or_error_policy : Choice Func
  or_error_policy cfg = record cfg { missing_key = text_or cfg.missing_key (bytes "error") }

  unfoldable pub parse_options : List (Option (Choice Func)) → Result (Options Func)
  parse_options opts = do
    let cfg = or_error_policy (apply_choices opts first_options)
    validate_missing_key cfg.missing_key
    ok cfg

  unfoldable pub template_option : Options Func → Text
  template_option cfg = bytes "missingkey=" ++ cfg.missing_key

unfoldable pub is_builtin : Text → Bool
is_builtin source = has_prefix (bytes "builtin:") (trim_space source)

unfoldable pub builtin_name : Text → Text
builtin_name source = trim_space (trim_prefix (trim_space source) (bytes "builtin:"))

-- The method read of builtinTemplates; a nil file system is `none`.
unfoldable pub read_builtin : Option FileSystem → Text → Result (Text × Text)
read_builtin files source = do
  let name = builtin_name source
  refuse_if (is_empty name) (message (bytes "built-in template name must not be empty") [])
  refuse_if (contains_byte 47 name || contains_byte 92 name)
      (message (bytes "built-in template name %q must not contain path separators") (name ∷ []))
  elim files [
    | none ↦ err (message (bytes "built-in templates are not configured") [])
    | some fs ↦ (do
      body ←
          map_error (wrapped (bytes "read built-in template %q: %w") (name ∷ []))
            (fs.read_file (name ++ bytes ".tmpl"))
      ok (name ++ bytes ".tmpl", body))
  ]

module _ (paths : Paths) where
  abbrev pub is_template : Text × Bool → Bool
  is_template (name, is_dir) = not (is_dir || not (text_eq (paths.ext name) (bytes ".tmpl")))

  -- The loop over the entries of the directory.
  unfoldable pub template_names : List (Text × Bool) → List Text
  template_names [] = []
  template_names (entry ∷ entries) =
      let rest = template_names entries in
      if is_template entry then trim_suffix entry.0 (bytes ".tmpl") ∷ rest else rest

  abbrev pub names_of : Result (List (Text × Bool)) → List Text
  names_of (err e) = []
  names_of (ok entries) = sort_texts (template_names entries)

  -- The method names.
  unfoldable pub builtin_names : Option FileSystem → List Text
  builtin_names none = []
  builtin_names (some fs) = names_of (fs.read_dir (bytes "."))

  -- From the test of the trimmed source on.
  unfoldable pub read_trimmed : Option FileSystem → Text → Result (Text × Text)
  read_trimmed files source = if is_builtin source then read_builtin files source else (do
    body ← map_error (wrapped (bytes "read template %q: %w") (source ∷ [])) (paths.read_file source)
    ok (paths.base source, body))

  unfoldable pub read_source : Option FileSystem → Text → Result (Text × Text)
  read_source files text = do
    refuse_if (is_empty (trim_space text)) (message (bytes "template source is required") [])
    read_trimmed files (trim_space text)

  module _ {Func Parsed Data : Type 0} (engine : Engine Func Parsed Data) where
    -- The functions of a configuration.
    abbrev pub all_funcs : Options Func → List (Text × Func)
    all_funcs cfg = copy_into (if cfg.use_default_funcs then engine.default_funcs else []) cfg.funcs

    unfoldable pub parse : Text → Text → List (Option (Choice Func)) → Result Parsed
    parse name value opts = do
      cfg ← parse_options opts
      map_error (wrapped (bytes "parse %s: %w") (name ∷ []))
          (engine.parse_with name (template_option cfg) (all_funcs cfg) value)

    -- ParseTemplate, and ParseStringTemplate.
    unfoldable pub parse_template : Text → Text → List (Option (Choice Func)) → Result Parsed
    parse_template name input opts = do
      refuse_if (is_empty input) (message (bytes "template input is required") [])
      parse name input opts

    unfoldable pub parse_html_template : Text → Text → List (Option (Choice Func)) → Result Parsed
    parse_html_template name input opts = do
      refuse_if (is_empty input) (message (bytes "template input is required") [])
      cfg ← parse_options opts
      map_error (wrapped (bytes "parse HTML %s: %w") (name ∷ []))
          (engine.parse_with name (template_option cfg) (all_funcs cfg) input)

    unfoldable pub parse_source :
        Option FileSystem → Text → List (Option (Choice Func)) → Result Parsed
    parse_source files source opts = do
      (name, body) ← read_source files source
      map_error (wrapped (bytes "parse template %q: %w") (source ∷ [])) (parse name body opts)

    unfoldable pub load_html_source :
        Option FileSystem → Text → List (Option (Choice Func)) → Result Parsed
    load_html_source files source opts = do
      (name, body) ← read_source files source
      parse_html_template name body opts

    -- Load, and LoadString.
    unfoldable pub load : Text → List (Option (Choice Func)) → Result Parsed
    load path opts = do
      refuse_if (is_empty path) (message (bytes "template path is required") [])
      body ← map_error (wrapped (bytes "read template: %w") []) (paths.read_file path)
      parse_template (paths.base path) body opts

    -- LoadFromFS, and LoadStringFromFS.
    unfoldable pub load_from_fs :
        Option FileSystem → Text → List (Option (Choice Func)) → Result Parsed
    load_from_fs none path opts = err (message (bytes "template filesystem is required") [])
    load_from_fs (some fs) path opts = do
      refuse_if (is_empty path) (message (bytes "template path is required") [])
      body ← map_error (wrapped (bytes "read template: %w") []) (fs.open_file path)
      parse_template path body opts

    -- Render of a template that may be nil.
    unfoldable pub render_template : Option Parsed → Data → Result Text
    render_template none values = err (message (bytes "template is nil") [])
    render_template (some parsed) values =
        map_error (wrapped (bytes "execute template: %w") []) (engine.execute parsed values)

    unfoldable pub render_html_template : Option Parsed → Data → Result Text
    render_html_template none values = err (message (bytes "HTML template is nil") [])
    render_html_template (some parsed) values =
        map_error (wrapped (bytes "execute HTML template: %w") []) (engine.execute parsed values)
