-- ===== src/Sqlite/Tables.antt =====
-- storage/sqlite/sqlite.go: the rows of the tables that migrate creates. The ten tables of contributions have the
-- columns of their versions in common and are one list here; `Content` is the rest of a row. A table has no order.
pub mod Visible
use agent_graph.Prelude.{
  ℕ, suc, Str, bytes, List, [], ◌∷◌, ◌++◌, map, Bool, true, false, Option, none, some, ◌==◌, str_eq,
  nat_eq, Eq, if◌then◌else◌, ◌&&◌, ◌||◌, not, ltb, leb, Str-discrete, Result, ok, err, ◌>>=◌,
}
use agent_graph.Graph.Types.{Node, Edge, Facts}
use agent_graph.Extractor.Types.{
  ModuleBinding, UnresolvedReference, SymbolReference, ExportedSurface, Dependency, Diagnostic,
  Contribution,
}

pub record VersionRow : Type 0 where
  pub workspace : Str
  pub version : ℕ
  pub published_at : Str

-- A row of file_contributions, contribution_nodes, and so on. The bindings of a reference have a table of their own.
pub data Content : Type 0 where
  file_content : Str → Str → Str → Content
  node_content : Node → Content
  edge_content : Edge → Content
  extension_content dependency_content : Str → Content
  surface_content : ExportedSurface → Content
  diagnostic_content : Diagnostic → Content
  unresolved_content : Str → Str → Str → Bool → Content
  binding_content : Str → Str → Str → ModuleBinding → Content
  symbol_content : SymbolReference → Content

-- `valid_to` is NULL as long as the row holds.
pub record ContributionRow : Type 0 where
  pub workspace : Str
  pub source_path : Str
  pub valid_from : ℕ
  pub valid_to : Option ℕ
  pub content : Content

-- A row of workspace_nodes, or of workspace_edges with its owner.
pub data WorkspaceFact : Type 0 where
  workspace_node : Node → WorkspaceFact
  workspace_edge : Edge → Str → WorkspaceFact

pub record WorkspaceRow : Type 0 where
  pub workspace : Str
  pub version : ℕ
  pub fact : WorkspaceFact

pub record Tables : Type 0 where
  pub graph_versions : List VersionRow
  pub contributions : List ContributionRow
  pub workspace_facts : List WorkspaceRow

unfoldable pub texts-discrete : Discrete (List Str)
texts-discrete = hlevel Str-discrete

instance abbrev pub texts_eq : Eq (List Str)
texts_eq = record { dec = texts-discrete }

-- The table, and what its primary key has behind the workspace, the path and the version.
abbrev pub content_key : Content → List Str
content_key (file_content project name version) = bytes "file_contributions" ∷ []
content_key (node_content node) = bytes "contribution_nodes" ∷ node.id ∷ []
content_key (edge_content edge) =
    bytes "contribution_edges" ∷ edge.source_id ∷ edge.target_id ∷ edge.relation ∷ []
content_key (extension_content extension) = bytes "contribution_extensions" ∷ extension ∷ []
content_key (dependency_content target) = bytes "contribution_dependencies" ∷ target ∷ []
content_key (surface_content surface) =
    bytes "contribution_exported_surfaces" ∷ surface.node_id ∷ surface.name ∷ []
content_key (diagnostic_content diagnostic) =
    bytes "contribution_diagnostics" ∷ diagnostic.severity ∷ diagnostic.message ∷ []
content_key (unresolved_content source target kind ambiguous) =
    bytes "contribution_unresolved_references" ∷ source ∷ target ∷ kind ∷ []
content_key (binding_content source target kind binding) =
    bytes "contribution_module_bindings"
    ∷ source
    ∷ target
    ∷ kind
    ∷ binding.imported_name
    ∷ binding.exported_name
    ∷ binding.local_name
    ∷ []
content_key (symbol_content symbol) =
    bytes "contribution_symbol_references" ∷ symbol.source_id ∷ symbol.target ∷ symbol.relation ∷ []

abbrev pub fact_key : WorkspaceFact → List Str
fact_key (workspace_node node) = bytes "workspace_nodes" ∷ node.id ∷ []
fact_key (workspace_edge edge owner) =
    bytes "workspace_edges" ∷ edge.source_id ∷ edge.target_id ∷ edge.relation ∷ []

-- `DELETE FROM … WHERE` leaves the other rows.
unfoldable pub delete_where {ℓ} : {A : Type ℓ} → (A → Bool) → List A → List A
delete_where condition [] = []
delete_where condition (row ∷ rows) =
    let rest = delete_where condition rows in if condition row then rest else row ∷ rest

-- What a read of a version sees:
-- `workspace = ? AND valid_from_version <= ? AND (valid_to_version IS NULL OR valid_to_version >= ?)`.
abbrev pub ends_after : ℕ → Option ℕ → Bool
ends_after version none = true
ends_after version (some last) = leb version last

unfoldable pub is_visible : Str → ℕ → ContributionRow → Bool
is_visible workspace version row =
    row.workspace == workspace && leb row.valid_from version && ends_after version row.valid_to

-- The rows that prepareContribution makes of a contribution, table by table.
abbrev pub binding_contents : UnresolvedReference → List Content
binding_contents reference =
    map (binding_content reference.source_id reference.target reference.kind) reference.bindings

abbrev pub all_bindings : List UnresolvedReference → List Content
all_bindings [] = []
all_bindings (reference ∷ references) = binding_contents reference ++ all_bindings references

unfoldable pub prepare_contribution : Contribution → List Content
prepare_contribution c =
    file_content c.project_id c.metadata.name c.metadata.version ∷ map node_content c.facts.nodes
    ++ map edge_content c.facts.edges
    ++ map extension_content c.metadata.extensions
    ++ map (λ (d : Dependency). dependency_content d.target_path) c.dependencies
    ++ map surface_content c.exported_surfaces
    ++ map diagnostic_content c.diagnostics
    ++ map (λ (r : UnresolvedReference). unresolved_content r.source_id r.target r.kind r.ambiguous)
        c.unresolved_references
    ++ all_bindings c.unresolved_references
    ++ map symbol_content c.symbol_references
