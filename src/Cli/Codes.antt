-- ===== src/Cli/Codes.antt =====
-- cli/result.go: which formats are accepted, and how a run that asks for another one exits.
use agent_graph.Prelude.{
  Str, List, [], ◌∷◌, some, ok, err, str_eq, ◌==◌, ◌||◌, Bool-cases, inl, inr, ◌≡◌, ◌≢◌, ◌⊎◌, refl,
  arith, ◌∙◌,
}
use agent_graph.Cli.{
  format_text, format_json, GoError, wrapped, new_invalid_argument_error, unsupported_format,
  parse_format, as_command_error, exit_code,
}

-- An error on its way up, wrapped in texts.
abbrev pub wrap_all : List Str → GoError → GoError
wrap_all [] error = error
wrap_all (text ∷ texts) error = wrapped text (wrap_all texts error)

as_command_error-wrap_all :
    (texts : List Str) (error : GoError)
    → as_command_error (wrap_all texts error) ≡ as_command_error error
unfolding as_command_error
as_command_error-wrap_all [] error = refl
as_command_error-wrap_all (text ∷ texts) error = as_command_error-wrap_all texts error

invalid_argument_code : (message : Str) → exit_code (some (new_invalid_argument_error message)) ≡ 2
unfolding exit_code as_command_error
invalid_argument_code message = ground arith

exit_code-wrap_all :
    (texts : List Str) (error : GoError)
    → exit_code (some (wrap_all texts error)) ≡ exit_code (some error)
unfolding exit_code
exit_code-wrap_all texts error = ground (arith, as_command_error-wrap_all texts error)

-- `ParseFormat` gives `text` for nothing and for `text`, and `json` for `json`. For any other value it returns an
-- error, with which the command exits with code 2, however often the error is wrapped on its way.
pub parse_format-exit_code :
    (quote : Str → Str) (value : Str)
    → (((value ≡ []) ⊎ (value ≡ format_text)) × (parse_format quote value ≡ ok format_text))
      ⊎ ((value ≡ format_json) × (parse_format quote value ≡ ok format_json))
      ⊎ ((value ≢ [])
          × (value ≢ format_text)
          × (value ≢ format_json)
          × ((error : GoError) × (parse_format quote value ≡ err error)
              × ((texts : List Str) → exit_code (some (wrap_all texts error)) ≡ 2)))
unfolding parse_format
parse_format-exit_code quote value = elim (Bool-cases (value == [] || value == format_text)) [
  | inl t ↦ inl (ground (arith, t), ground (arith, t))
  | inr f ↦ elim (Bool-cases (value == format_json)) [
    | inl t ↦ inr (inl (ground (arith, t), ground (arith, f, t)))
    | inr g ↦ inr (
        inr (
          λ e. ground (arith, e, f),
          λ e. ground (arith, e, f),
          λ e. ground (arith, e, g),
          (
            new_invalid_argument_error (unsupported_format quote value),
            ground (arith, f, g),
            λ texts.
                exit_code-wrap_all texts _ ∙ invalid_argument_code (unsupported_format quote value),
          ),
        ))
  ]
]
