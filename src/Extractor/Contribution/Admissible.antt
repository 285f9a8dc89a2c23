-- ===== src/Extractor/Contribution/Admissible.antt =====
-- extractor/contracts.go: what NewContribution asks of its input, without its loops.
use agent_graph.Prelude.{Str, [], str_eq, ◌≡◌, ◌≢◌, ◌⊎◌, In, All}
use agent_graph.Graph.Types.{Node, Facts}
use agent_graph.Graph.Vocabulary.{Vocabulary}
use agent_graph.Graph.Consistent.{IsConsistent, IsEvidence}
use agent_graph.Extractor.Types.{
  reference_import, reference_re_export, reference_require, UnresolvedReference, SymbolReference,
  ExportedSurface, diagnostic_error, diagnostic_warning, diagnostic_info, ContributionInput,
}
use agent_graph.Extractor.Metadata.{IsDescription}

-- The id is that of a node of the facts.
abbrev pub IsLocal : Facts → Str → Type 0
IsLocal facts id = (node : Node) × In node facts.nodes × (node.id ≡ id)

abbrev pub IsKind : Str → Type 0
IsKind kind = (kind ≡ reference_import) ⊎ (kind ≡ reference_re_export) ⊎ (kind ≡ reference_require)

abbrev pub IsSeverity : Str → Type 0
IsSeverity severity =
    (severity ≡ diagnostic_error) ⊎ (severity ≡ diagnostic_warning) ⊎ (severity ≡ diagnostic_info)

pub record IsReference (facts : Facts) (reference : UnresolvedReference) : Type 0 where
  pub named : reference.source_id ≢ []
  pub local : IsLocal facts reference.source_id
  pub aimed : reference.target ≢ []
  pub kinded : IsKind reference.kind
  pub bound : All (λ binding. binding.imported_name ≢ []) reference.bindings

pub record IsSymbol (facts : Facts) (reference : SymbolReference) : Type 0 where
  pub named : reference.source_id ≢ []
  pub local : IsLocal facts reference.source_id
  pub aimed : reference.target ≢ []
  pub related : reference.relation ≢ []
  pub evident : IsEvidence reference.evidence

pub record IsSurface (facts : Facts) (surface : ExportedSurface) : Type 0 where
  pub sourced : surface.node_id ≢ []
  pub local : IsLocal facts surface.node_id
  pub named : surface.name ≢ []

pub record IsAdmissible (vocabulary : Vocabulary) (input : ContributionInput) : Type 0 where
  pub located : input.source_path ≢ []
  pub described : IsDescription input.metadata
  pub consistent : IsConsistent vocabulary input.facts
  pub references : All (IsReference input.facts) input.unresolved_references
  pub symbols : All (IsSymbol input.facts) input.symbol_references
  pub surfaces : All (IsSurface input.facts) input.exported_surfaces
  pub dependencies : All (λ d. (d.source_path ≢ []) × (d.target_path ≢ [])) input.dependencies
  pub diagnostics : All (λ d. (d.message ≢ []) × IsSeverity d.severity) input.diagnostics
