-- ===== src/Extractor/Examples.antt =====
-- extractor/ and extractors/registry/ on one extractor and one contribution.
use agent_graph.Prelude.{
  ℕ, suc, true, Str, bytes, List, [], ◌∷◌, none, some, ok, err, false, ◌≡◌, ◌≢◌, ◌↔◌, refl, str_eq,
  In, All, Distinct, map,
}
use agent_graph.GoPath.{has_prefix}
use agent_graph.GoStrings.{trim_left, trim_right, trim_space, ext}
use agent_graph.Graph.Vocabulary.{Vocabulary}
use agent_graph.Graph.Examples.{vocabulary, facts, evidence, evaluates}
use agent_graph.Extractor.Types.{
  Description, ContributionInput, Dependency, Extractor, extension_twice, prefix_missing,
  reference_import,
}
use agent_graph.Extractor.Extension.{
  normalize_extension, extension, normalize_extension-normalize_extension,
}
use agent_graph.Extractor.Metadata.{
  check_extensions, validate_metadata, IsDescription, validate_metadata_iff,
}
use agent_graph.Extractor.Contribution.{
  check_all, check_binding, check_reference, validate_reference_evidence, check_symbol,
  check_surface, check_dependency, check_diagnostic, check_contribution, contribution_of,
  new_contribution, check_own_dependency, with_dependencies,
}
use agent_graph.Extractor.Contribution.Admissible.{IsAdmissible}
use agent_graph.Extractor.Contribution.Admission.{new_contribution_iff, with_dependencies_iff}
use agent_graph.Extractor.Language.{
  check_prefixes, rules_between, new_language_vocabulary, IsPrefixed, new_language_vocabulary_iff,
}
use agent_graph.Extractor.Registry.{
  Registry, add_extensions, register_extractor, register_all, new_registry, for_path,
}
use agent_graph.Extractor.Registry.Table.{Serves, new_registry-for_path}
use agent_graph.Extractor.PageIndex.{
  ResolverTargetRequest, ResolverPackagePageRequest, TargetAnswer, PackageAnswer, PageResolverIndex,
  new_page_resolver_index, for_target, resolver_target, serve_all,
}
use agent_graph.Extractor.PageIndex.Stable.{resolver_target_stable}

-- Evaluates the component.
run : Unit {0}
unfolding evaluates has_prefix trim_left trim_right trim_space ext normalize_extension extension
    check_extensions validate_metadata check_all check_binding check_reference
    validate_reference_evidence check_symbol check_surface check_dependency check_diagnostic
    check_contribution new_contribution check_own_dependency with_dependencies check_prefixes
    rules_between new_language_vocabulary add_extensions register_extractor register_all
    new_registry for_path
run = tt

abbrev pub description : Description
description = record {
  name = bytes "demo";
  version = bytes "1";
  extensions = bytes "GO" ∷ bytes " .mod " ∷ [];
}

abbrev pub demo : Extractor
demo = record { metadata = description; vocabulary = ok vocabulary }

abbrev pub input : ContributionInput
input = record {
  project_id = bytes "p";
  source_path = bytes "a.go";
  metadata = description;
  facts = facts;
  unresolved_references =
      record {
        source_id = bytes "f";
        target = bytes "fmt";
        kind = reference_import;
        ambiguous = false;
        bindings = [];
      }
      ∷ [];
  symbol_references =
      record {
        source_id = bytes "f";
        target = bytes "Println";
        relation = bytes "references";
        evidence = evidence;
      }
      ∷ [];
  exported_surfaces = record { node_id = bytes "f"; name = bytes "F" } ∷ [];
  dependencies = [];
  diagnostics = [];
}

normalize-go : normalize_extension (bytes "GO") ≡ bytes ".go"
unfolding run
normalize-go = refl

validate_metadata-twice :
    validate_metadata (record description { extensions = bytes "go" ∷ bytes ".Go" ∷ [] })
    ≡ some extension_twice
unfolding run
validate_metadata-twice = refl

new_contribution-input : new_contribution vocabulary input ≡ ok (contribution_of input)
unfolding run
new_contribution-input = refl

new_language_vocabulary-foreign :
    new_language_vocabulary (bytes "go") (bytes "go:func" ∷ bytes "js:func" ∷ [])
    ≡ err prefix_missing
unfolding run
new_language_vocabulary-foreign = refl

abbrev pub table : Registry
table = record {
  by_extension = (bytes ".mod", demo) ∷ (bytes ".go", demo) ∷ [];
  extractors = demo ∷ [];
}

new_registry-demo : new_registry (some demo ∷ []) ≡ ok table
unfolding run
new_registry-demo = refl

for_path-go : for_path table (bytes "src/Main.GO") ≡ some demo
unfolding run
for_path-go = refl

normalize_extension-normalize_extension_example :
    normalize_extension (normalize_extension (bytes " Go ")) ≡ normalize_extension (bytes " Go ")
normalize_extension-normalize_extension_example =
    normalize_extension-normalize_extension (bytes " Go ")

validate_metadata_iff_example : (validate_metadata description ≡ none) ↔ IsDescription description
validate_metadata_iff_example = validate_metadata_iff description

new_contribution_iff_example :
    (new_contribution vocabulary input ≡ ok (contribution_of input))
    ↔ (IsAdmissible vocabulary input × (contribution_of input ≡ contribution_of input))
new_contribution_iff_example = new_contribution_iff vocabulary input (contribution_of input)

abbrev pub own : List Dependency
own = record { source_path = bytes "a.go"; target_path = bytes "b.go" } ∷ []

with_dependencies_iff_example :
    (with_dependencies (contribution_of input) own
      ≡ ok (record (contribution_of input) { dependencies = own }))
    ↔ (All (λ d. (d.source_path ≡ bytes "a.go") × (d.target_path ≢ [])) own
        × (record (contribution_of input) { dependencies = own }
            ≡ record (contribution_of input) { dependencies = own }))
with_dependencies_iff_example =
    with_dependencies_iff (contribution_of input) own
      (record (contribution_of input) { dependencies = own })

new_language_vocabulary_iff_example :
    ((v : Vocabulary) × (new_language_vocabulary (bytes "go") (bytes "go:func" ∷ []) ≡ ok v)) ↔ (
      (bytes "go" ≢ [])
      × All (IsPrefixed (bytes "go")) (bytes "go:func" ∷ [])
      × (bytes "go:func" ∷ [] ≢ [])
      × Distinct (bytes "go:func" ∷ []))
new_language_vocabulary_iff_example =
    new_language_vocabulary_iff (bytes "go") (bytes "go:func" ∷ [])

new_registry-for_path_example :
    (map some table.extractors ≡ some demo ∷ [])
    × ((path : Str) (x : Extractor)
        → (for_path table path ≡ some x) ↔ (In x table.extractors × Serves x (extension path)))
new_registry-for_path_example = new_registry-for_path (some demo ∷ []) table new_registry-demo

-- An index that counts how often it is asked.
abbrev ask : ℕ → ResolverTargetRequest → TargetAnswer × ℕ
ask n (project, language, path) = (
  record {
    target = record {
      project_id = project;
      source_path = path;
      metadata = description;
      nodes = [];
      unresolved_references = [];
      symbol_references = [];
      exported_surfaces = [];
      diagnostics = [];
    };
    found = true;
    error = none;
  },
  suc n,
)

abbrev ask_package : ℕ → ResolverPackagePageRequest → PackageAnswer × ℕ
ask_package n request = (record { targets = []; error = none }, suc n)

abbrev main_go : ResolverTargetRequest
main_go = (bytes "p", bytes "go", bytes "main.go")

abbrev asked : TargetAnswer × PageResolverIndex × ℕ
asked = resolver_target ask ask_package new_page_resolver_index 0 main_go

abbrev later : PageResolverIndex × ℕ
later = serve_all ask ask_package asked.1 asked.2 (for_target main_go ∷ [])

resolver_target_stable_example :
    resolver_target ask ask_package later.0 later.1 main_go ≡ (asked.0, later.0, later.1)
resolver_target_stable_example =
    resolver_target_stable ask ask_package new_page_resolver_index 0 main_go
      (for_target main_go ∷ [])
