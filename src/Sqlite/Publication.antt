-- ===== src/Sqlite/Publication.antt =====
-- storage/sqlite/sqlite.go: publish, rollback and prune, on the operations of Versions.
pub mod Isolation
pub mod Holding
pub mod Reads
pub mod Steps
pub mod Inserted
pub mod Closed
pub mod Stored
pub mod Consistent
pub mod Greatest
pub mod Preserved
pub mod Latest
pub mod Retention
mod Examples
use agent_graph.Prelude.{
  ℕ, zero, suc, ◌+◌, ◌-◌, Str, List, [], ◌∷◌, ◌++◌, map, Bool, true, false, Option, none, some,
  ◌==◌, str_eq, nat_eq, if◌then◌else◌, ◌&&◌, ◌||◌, not, ltb, leb, is_empty, is_some, mem, Result,
  ok, err, ◌>>=◌,
}
use agent_graph.Graph.Types.{Node, Edge, Facts}
use agent_graph.Extractor.Types.{Contribution}
use agent_graph.Sqlite.Tables.{
  VersionRow, ContributionRow, WorkspaceFact, workspace_node, workspace_edge, WorkspaceRow, Tables,
  texts_eq, fact_key, delete_where,
}
use agent_graph.Sqlite.Versions.{
  StoreError, invalid_request, graph_version_not_found, over_budget, VersionSnapshot,
  PublishRequest, retained_graph_versions, max_version, find_version, reopen_contribution_records,
  rebase_contributions, store_contributions,
}

-- `INSERT OR IGNORE INTO workspace_nodes`, and into workspace_edges.
abbrev pub any_fact : Str → ℕ → List Str → List WorkspaceRow → Bool
any_fact workspace version key [] = false
any_fact workspace version key (row ∷ rows) =
    (row.workspace == workspace && row.version == version && fact_key row.fact == key)
    || any_fact workspace version key rows

unfoldable pub insert_facts : Str → ℕ → List WorkspaceFact → List WorkspaceRow → List WorkspaceRow
insert_facts workspace version [] rows = rows
insert_facts workspace version (fact ∷ facts) rows = insert_facts workspace version facts (
    if any_fact workspace version (fact_key fact) rows
    then rows
    else record { workspace = workspace; version = version; fact = fact } ∷ rows)

-- An edge is owned by the file of its evidence.
abbrev pub owned_edge : Edge → WorkspaceFact
owned_edge edge = workspace_edge edge edge.evidence.span.path

unfoldable pub store_workspace_facts : Str → ℕ → Facts → List WorkspaceRow → List WorkspaceRow
unfolding insert_facts
store_workspace_facts workspace version facts rows =
    insert_facts workspace version (map workspace_node facts.nodes ++ map owned_edge facts.edges)
      rows

-- The edges of the version before whose owner is not replaced.
abbrev pub kept_edge : List Str → WorkspaceFact → Bool
kept_edge owners (workspace_node node) = false
kept_edge owners (workspace_edge edge owner) = not (mem owner owners)

unfoldable pub copied_rows : Str → ℕ → List Str → List WorkspaceRow → List WorkspaceRow
copied_rows workspace version owners [] = []
copied_rows workspace version owners (row ∷ rows) =
    let rest = copied_rows workspace version owners rows in
    if row.workspace == workspace && row.version == version - 1 && kept_edge owners row.fact
    then record row { version = version } ∷ rest
    else rest

unfoldable pub retain_workspace_facts : Str → ℕ → List Str → List WorkspaceRow → List WorkspaceRow
unfolding copied_rows
retain_workspace_facts workspace version owners rows =
    if is_empty owners || leb version 1
    then rows
    else copied_rows workspace version owners rows ++ rows

abbrev pub version_below : Str → ℕ → VersionRow → Bool
version_below workspace version row = row.workspace == workspace && ltb row.version version

abbrev pub contribution_below : Str → ℕ → ContributionRow → Bool
contribution_below workspace version row = row.workspace == workspace && ltb row.valid_from version

abbrev pub fact_below : Str → ℕ → WorkspaceRow → Bool
fact_below workspace version row = row.workspace == workspace && ltb row.version version

-- `SELECT COUNT(*)`.
abbrev count_versions : (VersionRow → Bool) → List VersionRow → ℕ
count_versions condition [] = 0
count_versions condition (row ∷ rows) =
    let rest = count_versions condition rows in if condition row then suc rest else rest

abbrev pub pruned_tables : Str → ℕ → Tables → Tables
pruned_tables workspace retained tables = record {
  graph_versions = delete_where (version_below workspace retained) tables.graph_versions;
  contributions =
      delete_where (contribution_below workspace retained)
        (rebase_contributions workspace retained tables.contributions);
  workspace_facts = delete_where (fact_below workspace retained) tables.workspace_facts;
}

unfoldable pub prune_versions : Str → ℕ → Tables → Result StoreError (ℕ × Tables)
prune_versions workspace retained tables =
    if is_some (find_version workspace retained tables.graph_versions)
    then ok (
      count_versions (version_below workspace retained) tables.graph_versions,
      pruned_tables workspace retained tables,
    )
    else err graph_version_not_found

-- The result is the number of versions that went.
unfoldable pub prune : Str → ℕ → Tables → Result StoreError (ℕ × Tables)
unfolding prune_versions
prune workspace before_version tables =
    if is_empty workspace || before_version == 0
    then err invalid_request
    else prune_versions workspace before_version tables

abbrev pub version_above : Str → ℕ → VersionRow → Bool
version_above workspace version row = row.workspace == workspace && ltb version row.version

abbrev pub contribution_above : Str → ℕ → ContributionRow → Bool
contribution_above workspace version row = row.workspace == workspace && ltb version row.valid_from

abbrev pub fact_above : Str → ℕ → WorkspaceRow → Bool
fact_above workspace version row = row.workspace == workspace && ltb version row.version

abbrev pub rolled_back : Str → ℕ → Tables → Tables
rolled_back workspace version tables = record {
  graph_versions = delete_where (version_above workspace version) tables.graph_versions;
  contributions =
      reopen_contribution_records workspace version
        (delete_where (contribution_above workspace version) tables.contributions);
  workspace_facts = delete_where (fact_above workspace version) tables.workspace_facts;
}

unfoldable pub rollback : Str → ℕ → Tables → Result StoreError (VersionSnapshot × Tables)
rollback workspace version tables =
    if is_empty workspace
    then err invalid_request
    else elim (find_version workspace version tables.graph_versions) [
      | none ↦ err graph_version_not_found
      | some row ↦ ok (
        record { workspace = workspace; version = version; published_at = row.published_at },
        rolled_back workspace version tables,
      )
    ]

-- `encodeContributions` refuses a path that comes twice.
abbrev pub repeats_path : List Contribution → List Str → Bool
repeats_path [] seen = false
repeats_path (c ∷ cs) seen = mem c.source_path seen || repeats_path cs (c.source_path ∷ seen)

abbrev pub record_version : Str → ℕ → Str → List VersionRow → List VersionRow
record_version workspace version time rows =
    record { workspace = workspace; version = version; published_at = time } ∷ rows

-- `storePreparedPublication`, behind the row of the version.
unfoldable pub store_prepared_publication :
    PublishRequest → ℕ → Str → Tables → Result StoreError Tables
unfolding retain_workspace_facts store_workspace_facts
store_prepared_publication request version time tables =
    store_contributions request.workspace version request.update tables.contributions
    >>= λ contributions. ok (record {
      graph_versions = record_version request.workspace version time tables.graph_versions;
      contributions = contributions;
      workspace_facts = store_workspace_facts request.workspace version request.workspace_facts (
          retain_workspace_facts request.workspace version request.replaced_workspace_fact_owners
            tables.workspace_facts);
    })

-- Only so many versions are retained.
unfoldable pub prune_old : Str → ℕ → Tables → Result StoreError Tables
unfolding prune_versions
prune_old workspace version tables =
    if ltb retained_graph_versions version
    then (prune_versions workspace (version - retained_graph_versions + 1) tables >>= λ pruned.
        ok (pruned.1))
    else ok tables

module _ (within_budget : Tables → Bool) (time : Str) where
  -- The database may be too large after all, which `within_budget` tells.
  abbrev published : Str → ℕ → Tables → Result StoreError (VersionSnapshot × Tables)
  published workspace version tables =
      if within_budget tables
      then ok (record { workspace = workspace; version = version; published_at = time }, tables)
      else err over_budget

  unfoldable pub publish : PublishRequest → Tables → Result StoreError (VersionSnapshot × Tables)
  unfolding store_prepared_publication prune_old
  publish request tables =
      let version = suc (max_version request.workspace tables.graph_versions) in
      if is_empty request.workspace
      then err invalid_request
      else if repeats_path request.update []
      then err invalid_request
      else store_prepared_publication request version time tables
        >>= prune_old request.workspace version
        >>= published request.workspace version

  -- `PublishStaged`: the request comes from a function that reads the version before.
  unfoldable pub publish_staged :
      Str
      → (VersionSnapshot → Result StoreError PublishRequest)
      → Tables
      → Result StoreError (VersionSnapshot × Tables)
  unfolding publish
  publish_staged workspace stage tables =
      if is_empty workspace
      then err invalid_request
      else stage (record {
        workspace = workspace;
        version = max_version workspace tables.graph_versions;
        published_at = [];
      })
        >>= λ request.
            if request.workspace == workspace then publish request tables else err invalid_request
