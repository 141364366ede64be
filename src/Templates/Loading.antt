-- ===== src/Templates/Loading.antt =====
-- templates/templates.go: what the loaders parse.
use notifykit.Base.{◌≡◌, ◌≢◌, refl, Option, none, some, List, [], is_empty, is_empty_iff, arith}
use notifykit.Text.{Text}
use notifykit.Notify.Result.{ok, refuse_if-then, map_error-then, then-ok, map_error-returns}
use notifykit.Templates.{
  Paths, FileSystem, Options, Choice, Engine, parse_options, template_option, all_funcs, parse,
  read_source, parse_source,
}
use notifykit.Text.Runes.{trim_space}
use notifykit.Templates.Sources.{IsRead, read_source-IsRead}
use notifykit.Templates.Strings.{
  load_source, parse_string_template, load_string, load_string_from_fs,
}

module _ (paths : Paths) {Func Parsed Data : Type 0} (engine : Engine Func Parsed Data)
    (opts : List (Option (Choice Func))) where
  -- The template was parsed from the text, under the options that parseOptions accepts.
  abbrev pub IsParsed : Text → Text → Parsed → Type 0
  IsParsed name body parsed =
      (cfg : Options Func) × (parse_options opts ≡ ok cfg)
      × (engine.parse_with name (template_option cfg) (all_funcs paths engine cfg) body ≡ ok parsed)

  parse-IsParsed :
      (name body : Text) (parsed : Parsed)
      → parse paths engine name body opts ≡ ok parsed
      → IsParsed name body parsed
  unfolding parse
  parse-IsParsed name body parsed h = ground arith

  parse_string_template-IsParsed :
      (name body : Text) (parsed : Parsed)
      → parse_string_template paths engine name body opts ≡ ok parsed
      → (body ≢ []) × IsParsed name body parsed
  unfolding parse_string_template
  parse_string_template-IsParsed name body parsed h =
      let (given, parses) = refuse_if-then (is_empty body) _ _ parsed h in
      ((is_empty_iff body).0 given, parse-IsParsed name body parsed parses)

  load_string-IsParsed :
      (path : Text) (parsed : Parsed)
      → load_string paths engine path opts ≡ ok parsed
      → (path ≢ [])
        × (body : Text) × (paths.read_file path ≡ ok body)
        × (body ≢ [])
        × IsParsed (paths.base path) body parsed
  unfolding load_string
  load_string-IsParsed path parsed h =
      let (given, rest) = refuse_if-then (is_empty path) _ _ parsed h in
      let (body, found, parses) = map_error-then _ (paths.read_file path) _ parsed rest in
      let (filled, made) = parse_string_template-IsParsed (paths.base path) body parsed parses in
      ((is_empty_iff path).0 given, body, found, filled, made)

  load_string_from_fs-IsParsed :
      (files : Option FileSystem) (path : Text) (parsed : Parsed)
      → load_string_from_fs paths engine files path opts ≡ ok parsed
      → (path ≢ [])
        × (fs : FileSystem) × (body : Text) × (files ≡ some fs)
        × (fs.open_file path ≡ ok body)
        × (body ≢ [])
        × IsParsed path body parsed
  unfolding load_string_from_fs
  load_string_from_fs-IsParsed none path parsed h = cc
  load_string_from_fs-IsParsed (some fs) path parsed h =
      let (given, rest) = refuse_if-then (is_empty path) _ _ parsed h in
      let (body, found, parses) = map_error-then _ (fs.open_file path) _ parsed rest in
      let (filled, made) = parse_string_template-IsParsed path body parsed parses in
      ((is_empty_iff path).0 given, fs, body, refl, found, filled, made)

  -- A template that LoadSource returns was parsed from what was read under the trimmed source: a plain
  -- file of the given file system or of the disk; under its name, with the options that parseOptions
  -- accepts.
  pub load_source-IsParsed :
      (files : Option FileSystem) (source : Text) (parsed : Parsed)
      → load_source paths engine files source opts ≡ ok parsed
      → (read : Text × Text) × IsRead paths files (trim_space source) read
        × IsParsed read.0 read.1 parsed
  unfolding load_source parse_source
  load_source-IsParsed files source parsed h =
      let (read, found, rest) = then-ok (read_source paths files source) _ parsed h in
      (
        read,
        read_source-IsRead paths files source read found,
        parse-IsParsed read.0 read.1 parsed (map_error-returns _ _ parsed rest),
      )
