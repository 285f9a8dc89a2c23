-- ===== src/Cli.antt =====
-- cli/result.go: output formats, and errors with their exit codes. `Render` and `RenderError` print, and are left
-- out.
pub mod Codes
mod Examples
use agent_graph.Prelude.{
  ℕ, Str, bytes, List, [], ◌∷◌, ◌++◌, Option, none, some, Result, ok, err, ◌==◌, str_eq, ◌||◌,
  if◌then◌else◌,
}

abbrev pub format_text : Str
format_text = bytes "text"

abbrev pub format_json : Str
format_json = bytes "json"

abbrev pub error_invalid_argument : Str
error_invalid_argument = bytes "invalid_argument"

abbrev pub error_index_unavailable : Str
error_index_unavailable = bytes "index_unavailable"

pub record CommandError : Type 0 where
  pub kind : Str
  pub message : Str

-- A Go error: one of the commands, another one, or one that wraps an error (`%w`) in a text.
pub data GoError : Type 0 where
  command : CommandError → GoError
  other : Str → GoError
  wrapped : Str → GoError → GoError

abbrev pub new_invalid_argument_error : Str → GoError
new_invalid_argument_error message =
    command (record { kind = error_invalid_argument; message = message })

-- `quote` is the verb `%q` of `fmt`.
abbrev pub new_index_unavailable_error : (quote : Str → Str) (workspace : Str) → GoError
new_index_unavailable_error quote workspace = command (record {
  kind = error_index_unavailable;
  message = bytes "no published graph is available for workspace " ++ quote workspace;
})

abbrev pub unsupported_format : (quote : Str → Str) (value : Str) → Str
unsupported_format quote value =
    bytes "unsupported output format " ++ quote value ++ bytes "; expected text or json"

unfoldable pub parse_format : (quote : Str → Str) (value : Str) → Result GoError Str
parse_format quote value =
    if value == [] || value == format_text
    then ok format_text
    else if value == format_json
    then ok format_json
    else err (new_invalid_argument_error (unsupported_format quote value))

-- `errors.As` for a `*CommandError`.
unfoldable pub as_command_error : GoError → Option CommandError
as_command_error (command error) = some error
as_command_error (other text) = none
as_command_error (wrapped text error) = as_command_error error

unfoldable pub exit_code : Option GoError → ℕ
exit_code none = 0
exit_code (some error) = elim (as_command_error error) [
  | none ↦ 1
  | some command_error ↦ if command_error.kind == error_invalid_argument then 2 else 1
]
