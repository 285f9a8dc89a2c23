-- ===== src/Cli/Examples.antt =====
-- cli/result.go on two formats.
use agent_graph.Prelude.{
  Str, bytes, List, [], some, ok, err, ◌≡◌, ◌≢◌, ◌++◌, ◌⊎◌, refl, str_eq, Str-discrete, ℕ_discrete,
}
use agent_graph.Cli.{
  format_text, format_json, GoError, wrapped, new_index_unavailable_error, parse_format,
  as_command_error, exit_code,
}
use agent_graph.Cli.Codes.{wrap_all, parse_format-exit_code}

parse_format-json : (quote : Str → Str) → parse_format quote (bytes "json") ≡ ok format_json
unfolding parse_format Str-discrete ℕ_discrete
parse_format-json quote = refl

exit_code-unavailable :
    exit_code
      (some (wrapped (bytes "query") (new_index_unavailable_error (λ text. text) (bytes "/w"))))
    ≡ 1
unfolding exit_code as_command_error Str-discrete ℕ_discrete
exit_code-unavailable = refl

abbrev quoted : Str → Str
quoted text = bytes "'" ++ text ++ bytes "'"

parse_format-exit_code_example :
    (((bytes "xml" ≡ []) ⊎ (bytes "xml" ≡ format_text))
      × (parse_format quoted (bytes "xml") ≡ ok format_text))
    ⊎ ((bytes "xml" ≡ format_json) × (parse_format quoted (bytes "xml") ≡ ok format_json))
    ⊎ ((bytes "xml" ≢ [])
        × (bytes "xml" ≢ format_text)
        × (bytes "xml" ≢ format_json)
        × ((error : GoError) × (parse_format quoted (bytes "xml") ≡ err error)
            × ((texts : List Str) → exit_code (some (wrap_all texts error)) ≡ 2)))
parse_format-exit_code_example = parse_format-exit_code quoted (bytes "xml")
