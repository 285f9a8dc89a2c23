-- ===== src/Extractor/Contribution.antt =====
-- extractor/contracts.go: NewContribution, NewGraphUpdate and WithDependencies. A copy of a list is the list.
pub mod Admissible
mod Checks
pub mod Admission
use agent_graph.Prelude.{
  Str, List, [], ◌∷◌, Option, none, some, Result, ok, err, ◌then◌, unless, Bool, ◌==◌, str_eq, ◌&&◌,
  ◌||◌, not, if◌then◌else◌, mem, map, is_empty,
}
use agent_graph.Graph.Types.{
  FactEvidence, Facts, ValidationCode, missing_fact_evidence, invalid_source_span,
  invalid_fact_confidence,
}
use agent_graph.Graph.Vocabulary.{Vocabulary}
use agent_graph.Graph.Validate.{
  validate, is_incomplete, starts_after_end, is_unsupported_confidence,
}
use agent_graph.Extractor.Types.{
  ModuleBinding, reference_import, reference_re_export, reference_require, UnresolvedReference,
  SymbolReference, ExportedSurface, Dependency, Diagnostic, diagnostic_error, diagnostic_warning,
  diagnostic_info, ContributionInput, Contribution, Refusal, source_path_empty, facts_invalid,
  reference_incomplete, reference_source_unknown, reference_kind_unsupported, binding_name_empty,
  symbol_incomplete, symbol_source_unknown, evidence_invalid, surface_incomplete,
  surface_node_unknown, dependency_incomplete, dependency_foreign, message_empty,
  severity_unsupported, update_empty,
}
use agent_graph.Extractor.Metadata.{validate_metadata}

-- A loop that returns at the first error.
unfoldable pub check_all : {A : Type 0} → (A → Option Refusal) → List A → Option Refusal
check_all check [] = none
check_all check (x ∷ xs) = check x then check_all check xs

unfoldable pub check_binding : ModuleBinding → Option Refusal
check_binding binding = if binding.imported_name == [] then some binding_name_empty else none

unfoldable pub check_reference : List Str → UnresolvedReference → Option Refusal
check_reference node_ids reference =
    if reference.source_id == [] || reference.target == [] || reference.kind == []
    then some reference_incomplete
    else if not (mem reference.source_id node_ids)
    then some reference_source_unknown
    else if not (reference.kind == reference_import)
        && not (reference.kind == reference_re_export)
        && not (reference.kind == reference_require)
    then some reference_kind_unsupported
    else check_all check_binding reference.bindings

-- The conditions are those of `validateEvidence` in graph/facts.go, which the source writes out again.
unfoldable pub validate_reference_evidence : FactEvidence → Option ValidationCode
validate_reference_evidence evidence =
    if is_incomplete evidence
    then some missing_fact_evidence
    else if starts_after_end evidence.span
    then some invalid_source_span
    else if is_unsupported_confidence evidence.confidence
    then some invalid_fact_confidence
    else none

abbrev pub refuse : (ValidationCode → Refusal) → Option ValidationCode → Option Refusal
refuse reason none = none
refuse reason (some code) = some (reason code)

unfoldable pub check_symbol : List Str → SymbolReference → Option Refusal
check_symbol node_ids reference =
    if reference.source_id == [] || reference.target == [] || reference.relation == []
    then some symbol_incomplete
    else if not (mem reference.source_id node_ids)
    then some symbol_source_unknown
    else refuse evidence_invalid (validate_reference_evidence reference.evidence)

unfoldable pub check_surface : List Str → ExportedSurface → Option Refusal
check_surface node_ids surface =
    if surface.node_id == [] || surface.name == []
    then some surface_incomplete
    else if not (mem surface.node_id node_ids)
    then some surface_node_unknown
    else none

unfoldable pub check_dependency : Dependency → Option Refusal
check_dependency dependency =
    if dependency.source_path == [] || dependency.target_path == []
    then some dependency_incomplete
    else none

unfoldable pub check_diagnostic : Diagnostic → Option Refusal
check_diagnostic diagnostic =
    if diagnostic.message == []
    then some message_empty
    else if not (diagnostic.severity == diagnostic_error)
        && not (diagnostic.severity == diagnostic_warning)
        && not (diagnostic.severity == diagnostic_info)
    then some severity_unsupported
    else none

abbrev pub node_ids_of : Facts → List Str
node_ids_of facts = map (λ node. node.id) facts.nodes

abbrev pub check_source_path : ContributionInput → Option Refusal
check_source_path input = if input.source_path == [] then some source_path_empty else none

unfoldable pub check_contribution : Vocabulary → ContributionInput → Option Refusal
check_contribution vocabulary input =
    let node_ids = node_ids_of input.facts in
    check_source_path input
    then validate_metadata input.metadata
    then refuse facts_invalid (validate vocabulary input.facts)
    then check_all (check_reference node_ids) input.unresolved_references
    then check_all (check_symbol node_ids) input.symbol_references
    then check_all (check_surface node_ids) input.exported_surfaces
    then check_all check_dependency input.dependencies
    then check_all check_diagnostic input.diagnostics

abbrev pub contribution_of : ContributionInput → Contribution
contribution_of input = record {
  project_id = input.project_id;
  source_path = input.source_path;
  metadata = input.metadata;
  facts = input.facts;
  unresolved_references = input.unresolved_references;
  symbol_references = input.symbol_references;
  exported_surfaces = input.exported_surfaces;
  dependencies = input.dependencies;
  diagnostics = input.diagnostics;
}

unfoldable pub new_contribution : Vocabulary → ContributionInput → Result Refusal Contribution
new_contribution vocabulary input =
    unless (check_contribution vocabulary input) (ok (contribution_of input))

unfoldable pub check_own_dependency : Contribution → Dependency → Option Refusal
check_own_dependency contribution dependency =
    if not (dependency.source_path == contribution.source_path) || dependency.target_path == []
    then some dependency_foreign
    else none

unfoldable pub with_dependencies : Contribution → List Dependency → Result Refusal Contribution
with_dependencies contribution dependencies =
    unless (check_all (check_own_dependency contribution) dependencies)
      (ok (record contribution { dependencies = dependencies }))

-- A `GraphUpdate` is the list of its contributions.
unfoldable pub new_graph_update : List Contribution → Result Refusal (List Contribution)
new_graph_update contributions =
    if is_empty contributions then err update_empty else ok contributions
