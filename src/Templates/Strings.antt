-- ===== src/Templates/Strings.antt =====
-- templates/templates.go: the templates that render strings, LoadSource, and the method exists.
use notifykit.Base.{Option, none, some, List, [], is_empty}
use notifykit.Text.{Text, bytes}
use notifykit.Notify.Error.{Error, message, wrapped}
use notifykit.Notify.Result.{Result, err, error_of, ◌>>=◌, ◌>>◌, refuse_if, map_error}
use notifykit.Templates.{Paths, FileSystem, Choice, Engine, read_builtin, parse, parse_source}

-- The method exists of builtinTemplates.
unfoldable pub builtin_exists : Option FileSystem → Text → Option Error
builtin_exists files source = error_of (read_builtin files source)

module _ (paths : Paths) {Func Parsed Data : Type 0} (engine : Engine Func Parsed Data) where
  -- LoadSource; the template around the parsed one is the parsed one.
  unfoldable pub load_source :
      Option FileSystem → Text → List (Option (Choice Func)) → Result Parsed
  load_source files source opts = parse_source paths engine files source opts

  unfoldable pub parse_string_template : Text → Text → List (Option (Choice Func)) → Result Parsed
  parse_string_template name input opts = do
    refuse_if (is_empty input) (message (bytes "template input is required") [])
    parse paths engine name input opts

  unfoldable pub load_string : Text → List (Option (Choice Func)) → Result Parsed
  load_string path opts = do
    refuse_if (is_empty path) (message (bytes "template path is required") [])
    body ← map_error (wrapped (bytes "read template: %w") []) (paths.read_file path)
    parse_string_template (paths.base path) body opts

  unfoldable pub load_string_from_fs :
      Option FileSystem → Text → List (Option (Choice Func)) → Result Parsed
  load_string_from_fs none path opts = err (message (bytes "template filesystem is required") [])
  load_string_from_fs (some fs) path opts = do
    refuse_if (is_empty path) (message (bytes "template path is required") [])
    body ← map_error (wrapped (bytes "read template: %w") []) (fs.open_file path)
    parse_string_template path body opts

  unfoldable pub execute_string : Parsed → Data → Result Text
  execute_string parsed values =
      map_error (wrapped (bytes "execute template: %w") []) (engine.execute parsed values)

  unfoldable pub render_string_template : Option Parsed → Data → Result Text
  render_string_template none values = err (message (bytes "template is nil") [])
  render_string_template (some parsed) values = execute_string parsed values
