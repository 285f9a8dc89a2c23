-- ===== src/Extractor/Registry.antt =====
-- extractors/registry/registry.go. An extractor that is nil is `none`.
pub mod Table
use agent_graph.Prelude.{
  Str, List, [], ◌∷◌, ◌++◌, Option, none, some, Result, ok, err, unless, ◌>>=◌, Bool, true, false,
  ◌==◌, str_eq, Str-discrete, if◌then◌else◌, map, mem, lookup, ◌≡◌, ◌≢◌, ◌↔◌, ◌⊎◌, inl, inr, refl,
  sym, ap, ap₂, arith, In, Distinct, Option-cases, Result-cases, lookup→In, In→lookup, lookup-none,
  subst, ◌∙◌, In-append, In-append_left, In-append_right,
}
use agent_graph.Extractor.Types.{Extractor, Refusal}
use agent_graph.Extractor.Extension.{normalize_extension, extension}
use agent_graph.Extractor.Metadata.{validate_metadata}
use mathlib.Core.List.{append_assoc, append-nil}

pub record Registry : Type 0 where
  pub by_extension : List (Str × Extractor)
  pub extractors : List Extractor

pub data RegistryError : Type 0 where
  extractor_nil : RegistryError
  metadata_refused vocabulary_refused : Refusal → RegistryError
  extension_taken : Str → RegistryError

-- The inner loop, over the extensions of one extractor.
unfoldable pub add_extensions :
    Extractor → List (Str × Extractor) → List Str → Result RegistryError (List (Str × Extractor))
add_extensions registered by_extension [] = ok by_extension
add_extensions registered by_extension (e ∷ es) =
    let normalized = normalize_extension e in
    elim (lookup normalized by_extension) [
      | some current ↦ err (extension_taken normalized)
      | none ↦ add_extensions registered ((normalized, registered) ∷ by_extension) es
    ]

abbrev pub check_extractor : Extractor → Option RegistryError
check_extractor registered = elim (validate_metadata registered.metadata) [
  | some refusal ↦ some (metadata_refused refusal)
  | none ↦ elim (registered.vocabulary) [
    | err refusal ↦ some (vocabulary_refused refusal)
    | ok vocabulary ↦ none
  ]
]

unfoldable pub register_extractor : Registry → Extractor → Result RegistryError Registry
register_extractor registry registered = unless (check_extractor registered) (
    add_extensions registered registry.by_extension registered.metadata.extensions
    >>= λ by_extension. ok (record {
      by_extension = by_extension;
      extractors = registry.extractors ++ registered ∷ [];
    }))

unfoldable pub register_all : Registry → List (Option Extractor) → Result RegistryError Registry
register_all registry [] = ok registry
register_all registry (none ∷ rest) = err extractor_nil
register_all registry (some registered ∷ rest) = elim (register_extractor registry registered) [
  | err error ↦ err error
  | ok registry' ↦ register_all registry' rest
]

unfoldable pub new_registry : List (Option Extractor) → Result RegistryError Registry
new_registry extractors = register_all (record { by_extension = []; extractors = [] }) extractors

unfoldable pub for_path : Registry → Str → Option Extractor
for_path registry path = lookup (extension path) registry.by_extension
