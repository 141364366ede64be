-- ===== src/Tests/Templates.antt =====
-- Sources and options of templates at concrete inputs.
use mathlib.Core.List.{Memᴰ}
use notifykit.Notify.Error.{message}
use notifykit.Base.{◌≢◌, ◌⊎◌, if◌then◌else◌, Bool-cases, inl, inr, arith}
use notifykit.Text.{text_eq, text_eq_sound}
use notifykit.Templates.{
  builtin_names, template_names, Engine, parse_source, parse, validate_missing_key,
}
use notifykit.Templates.Strings.{load_source}
use notifykit.Templates.Loading.{IsParsed, load_source-IsParsed}
use notifykit.Templates.Names.{IsReadable, IsExtension, named, builtin_names-IsReadable}
use notifykit.Base.{◌≡◌, refl, Bool, some, [], ◌∷◌}
use notifykit.Text.{Text, bytes}
use notifykit.Text.Runes.{trim_space}
use notifykit.Text.Strings.{has_prefix, trim_prefix, contains_byte, trim_suffix, sort_texts}
use notifykit.Notify.Result.{ok, err}
use notifykit.Templates.{
  Paths, FileSystem, is_builtin, builtin_name, read_builtin, read_trimmed, read_source,
  apply_choices, parse_options,
}
use notifykit.Templates.Sources.{IsRead}

abbrev greetings : FileSystem
greetings = record {
  read_file = λ name. ok (bytes "Hello");
  open_file = λ name. ok (bytes "Hello");
  read_dir = λ name. ok ((bytes "hello.tmpl", Bool.false) ∷ []);
}

abbrev disk : Paths
disk = record {
  read_file = λ path. ok (bytes "Bye");
  base = λ path. path;
  ext = λ path. bytes ".tmpl";
}

abbrev greeting_disk : Paths
greeting_disk = record disk {
  ext = λ name. if text_eq name (bytes "hello.tmpl") then bytes ".tmpl" else [];
}

greeting-IsExtension : IsExtension greeting_disk
greeting-IsExtension name h = elim (Bool-cases (text_eq name (bytes "hello.tmpl"))) [
  | inl same ↦ (bytes "hello", text_eq_sound name (bytes "hello.tmpl") same)
  | inr other ↦ ground arith
]

greeting_listed : Memᴰ (bytes "hello") (builtin_names greeting_disk (some greetings))
unfolding builtin_names template_names trim_suffix sort_texts
greeting_listed = Memᴰ.head refl

builtin_names-IsReadable_example :
    ((bytes "hello" ≢ []) × IsReadable greetings (bytes "hello"))
    ⊎ ((bytes "hello" ≡ [])
        × (read_builtin (some greetings) (named (bytes "hello"))
            ≡ err (message (bytes "built-in template name must not be empty") [])))
builtin_names-IsReadable_example =
    builtin_names-IsReadable greetings greeting_disk greeting-IsExtension
      ((bytes "hello.tmpl", Bool.false) ∷ []) refl ((λ h. (bytes "Hello", refl)), tt)
      (bytes "hello") greeting_listed
      (
        (omega arith, omega arith, (λ e. omega (arith, e)), (λ e. omega (arith, e))),
        (
          (omega arith, omega arith, (λ e. omega (arith, e)), (λ e. omega (arith, e))),
          (
            (omega arith, omega arith, (λ e. omega (arith, e)), (λ e. omega (arith, e))),
            (
              (omega arith, omega arith, (λ e. omega (arith, e)), (λ e. omega (arith, e))),
              ((omega arith, omega arith, (λ e. omega (arith, e)), (λ e. omega (arith, e))), tt),
            ),
          ),
        ),
      )

-- A parser that keeps the text, and executes a template to it.
abbrev verbatim : Engine Text Text Text
verbatim = record {
  parse_with = λ name option funcs body. ok body;
  execute = λ parsed values. ok parsed;
  default_funcs = [];
}

greeting_loaded :
    load_source disk verbatim (some greetings) (bytes " builtin:hello") [] ≡ ok (bytes "Hello")
unfolding load_source parse_source parse parse_options validate_missing_key read_source trim_space
    read_trimmed is_builtin has_prefix read_builtin builtin_name trim_prefix contains_byte
    apply_choices
greeting_loaded = refl

load_source-IsParsed_example :
    (read : Text × Text) × IsRead disk (some greetings) (trim_space (bytes " builtin:hello")) read
    × IsParsed disk verbatim [] read.0 read.1 (bytes "Hello")
load_source-IsParsed_example =
    load_source-IsParsed disk verbatim [] (some greetings) (bytes " builtin:hello") (bytes "Hello")
      greeting_loaded
