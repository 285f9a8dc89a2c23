-- ===== src/Extractor/Types.antt =====
-- extractor/contracts.go: the types. `Contents` and the sources of an extractor play no part in the checks.
use agent_graph.Prelude.{Str, bytes, List, Bool, Result}
use agent_graph.Graph.Types.{FactEvidence, Facts, ValidationCode}
use agent_graph.Graph.Vocabulary.{Vocabulary}

-- `Metadata` of the source. The name is that of a module here.
pub record Description : Type 0 where
  pub name : Str
  pub version : Str
  pub extensions : List Str

pub record ModuleBinding : Type 0 where
  pub imported_name : Str
  pub exported_name : Str
  pub local_name : Str

abbrev pub reference_import : Str
reference_import = bytes "import"

abbrev pub reference_re_export : Str
reference_re_export = bytes "re_export"

abbrev pub reference_require : Str
reference_require = bytes "require"

pub record UnresolvedReference : Type 0 where
  pub source_id : Str
  pub target : Str
  pub kind : Str
  pub ambiguous : Bool
  pub bindings : List ModuleBinding

pub record SymbolReference : Type 0 where
  pub source_id : Str
  pub target : Str
  pub relation : Str
  pub evidence : FactEvidence

pub record ExportedSurface : Type 0 where
  pub node_id : Str
  pub name : Str

pub record Dependency : Type 0 where
  pub source_path : Str
  pub target_path : Str

abbrev pub diagnostic_error : Str
diagnostic_error = bytes "error"

abbrev pub diagnostic_warning : Str
diagnostic_warning = bytes "warning"

abbrev pub diagnostic_info : Str
diagnostic_info = bytes "info"

pub record Diagnostic : Type 0 where
  pub severity : Str
  pub message : Str

pub record ContributionInput : Type 0 where
  pub project_id : Str
  pub source_path : Str
  pub metadata : Description
  pub facts : Facts
  pub unresolved_references : List UnresolvedReference
  pub symbol_references : List SymbolReference
  pub exported_surfaces : List ExportedSurface
  pub dependencies : List Dependency
  pub diagnostics : List Diagnostic

-- The same fields again: a contribution that was checked.
pub record Contribution : Type 0 where
  pub project_id : Str
  pub source_path : Str
  pub metadata : Description
  pub facts : Facts
  pub unresolved_references : List UnresolvedReference
  pub symbol_references : List SymbolReference
  pub exported_surfaces : List ExportedSurface
  pub dependencies : List Dependency
  pub diagnostics : List Diagnostic

-- Why an extractor or a contribution is refused. The texts are for people and are left out.
pub data Refusal : Type 0 where
  name_empty version_empty no_extensions extension_empty extension_twice : Refusal
  source_path_empty : Refusal
  facts_invalid : ValidationCode → Refusal
  reference_incomplete reference_source_unknown reference_kind_unsupported binding_name_empty :
      Refusal
  symbol_incomplete symbol_source_unknown : Refusal
  evidence_invalid : ValidationCode → Refusal
  surface_incomplete surface_node_unknown : Refusal
  dependency_incomplete dependency_foreign : Refusal
  message_empty severity_unsupported : Refusal
  update_empty : Refusal
  prefix_missing : Refusal
  vocabulary_invalid : ValidationCode → Refusal

-- What the registry asks an extractor for.
pub record Extractor : Type 0 where
  pub metadata : Description
  pub vocabulary : Result Refusal Vocabulary
