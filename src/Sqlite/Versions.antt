-- ===== src/Sqlite/Versions.antt =====
-- storage/sqlite/sqlite.go: Publish, PublishStaged, OpenSnapshot, Rollback and Prune on the tables. A failure rolls
-- the transaction back, so an error leaves the tables as they are. The caches and the measurements are left out, and
-- the rows of a contribution are inserted when it is added, though the source keeps them for a batch.
use agent_graph.Prelude.{
  ℕ, ◌-◌, max, Str, List, [], ◌∷◌, map, Bool, false, Option, none, some, ◌==◌, str_eq, nat_eq,
  if◌then◌else◌, ◌&&◌, ◌||◌, not, ltb, leb, is_empty, is_some, Result, ok, err, ◌>>=◌,
}
use agent_graph.Graph.Types.{Facts}
use agent_graph.Extractor.Types.{Contribution}
use agent_graph.Sqlite.Tables.{
  VersionRow, Content, file_content, ContributionRow, Tables, texts_eq, content_key,
  prepare_contribution,
}

pub data StoreError : Type 0 where
  invalid_request workspace_not_found graph_version_not_found graph_version_pruned : StoreError
  row_exists over_budget : StoreError
  stage_failed : Str → StoreError

pub record VersionSnapshot : Type 0 where
  pub workspace : Str
  pub version : ℕ
  pub published_at : Str

pub record PublishRequest : Type 0 where
  pub workspace : Str
  pub update : List Contribution
  pub workspace_facts : Facts
  pub replaced_workspace_fact_owners : List Str

abbrev pub retained_graph_versions : ℕ
retained_graph_versions = 25

-- `SELECT COALESCE(MAX(version), 0)`.
unfoldable pub max_version : Str → List VersionRow → ℕ
max_version workspace [] = 0
max_version workspace (row ∷ rows) =
    let rest = max_version workspace rows in
    if row.workspace == workspace then max row.version rest else rest

abbrev pub is_version : Str → ℕ → VersionRow → Bool
is_version workspace version row = row.workspace == workspace && row.version == version

unfoldable pub find_version : Str → ℕ → List VersionRow → Option VersionRow
find_version workspace version [] = none
find_version workspace version (row ∷ rows) =
    let rest = find_version workspace version rows in
    if is_version workspace version row then some row else rest

-- `SELECT MIN(version)`; NULL if there is none.
unfoldable pub min_version : Str → List VersionRow → Option ℕ
min_version workspace [] = none
min_version workspace (row ∷ rows) =
    let rest = min_version workspace rows in
    if row.workspace == workspace
    then elim rest [
      | none ↦ some row.version
      | some least ↦ some (if ltb least row.version then least else row.version)
    ]
    else rest

unfoldable pub graph_version_was_pruned : Str → ℕ → List VersionRow → Bool
graph_version_was_pruned workspace version rows = elim (min_version workspace rows) [
  | none ↦ false
  | some least ↦ ltb 0 version && ltb version least
]

abbrev snapshot_of : VersionRow → VersionSnapshot
snapshot_of row = record {
  workspace = row.workspace;
  version = row.version;
  published_at = row.published_at;
}

abbrev open_version : Str → ℕ → List VersionRow → Result StoreError VersionSnapshot
open_version workspace version rows = elim (find_version workspace version rows) [
  | some row ↦ ok (snapshot_of row)
  | none ↦
      if graph_version_was_pruned workspace version rows
      then err graph_version_pruned
      else err graph_version_not_found
]

-- The latest row is the one with the greatest version, which no other row of the workspace has.
abbrev open_latest : Str → List VersionRow → Result StoreError VersionSnapshot
open_latest workspace rows = elim (find_version workspace (max_version workspace rows) rows) [
  | some row ↦ ok (snapshot_of row)
  | none ↦ err workspace_not_found
]

unfoldable pub open_snapshot : Str → Option ℕ → Tables → Result StoreError VersionSnapshot
open_snapshot workspace wanted tables =
    if is_empty workspace then err invalid_request else elim wanted [
      | none ↦ open_latest workspace tables.graph_versions
      | some version ↦ open_version workspace version tables.graph_versions
    ]

-- `UPDATE … SET valid_to_version = ? WHERE workspace = ? AND source_path = ? AND valid_to_version IS NULL`.
abbrev pub close_row : Str → Str → ℕ → ContributionRow → ContributionRow
close_row workspace source_path version row =
    if row.workspace == workspace && row.source_path == source_path && not (is_some row.valid_to)
    then record row { valid_to = some version }
    else row

unfoldable pub close_contribution_records :
    Str → Str → ℕ → List ContributionRow → List ContributionRow
close_contribution_records workspace source_path version rows =
    map (close_row workspace source_path version) rows

-- `UPDATE … SET valid_to_version = NULL WHERE workspace = ? AND valid_to_version >= ?`.
abbrev pub ends_from : ℕ → Option ℕ → Bool
ends_from version none = false
ends_from version (some last) = leb version last

abbrev pub reopen_row : Str → ℕ → ContributionRow → ContributionRow
reopen_row workspace version row =
    if row.workspace == workspace && ends_from version row.valid_to
    then record row { valid_to = none }
    else row

unfoldable pub reopen_contribution_records : Str → ℕ → List ContributionRow → List ContributionRow
reopen_contribution_records workspace version rows = map (reopen_row workspace version) rows

-- `UPDATE … SET valid_from_version = ?` of the rows that begin before the version and hold at it.
abbrev pub rebase_row : Str → ℕ → ContributionRow → ContributionRow
rebase_row workspace version row =
    if row.workspace == workspace
      && ltb row.valid_from version
      && (not (is_some row.valid_to) || ends_from version row.valid_to)
    then record row { valid_from = version }
    else row

unfoldable pub rebase_contributions : Str → ℕ → List ContributionRow → List ContributionRow
rebase_contributions workspace version rows = map (rebase_row workspace version) rows

-- `INSERT OR IGNORE`, but `INSERT` into file_contributions, where a row with the key is an error.
abbrev pub same_key : ContributionRow → ContributionRow → Bool
same_key row other =
    other.workspace == row.workspace
    && other.source_path == row.source_path
    && other.valid_from == row.valid_from
    && content_key other.content == content_key row.content

abbrev pub any_row : (ContributionRow → Bool) → List ContributionRow → Bool
any_row condition [] = false
any_row condition (row ∷ rows) = condition row || any_row condition rows

abbrev pub on_conflict : Content → List ContributionRow → Result StoreError (List ContributionRow)
on_conflict (file_content project name version) rows = err row_exists
on_conflict _ rows = ok rows

unfoldable pub insert_row :
    ContributionRow → List ContributionRow → Result StoreError (List ContributionRow)
insert_row row rows =
    if any_row (same_key row) rows then on_conflict row.content rows else ok (row ∷ rows)

abbrev pub row_at : Str → Str → ℕ → Content → ContributionRow
row_at workspace source_path version content = record {
  workspace = workspace;
  source_path = source_path;
  valid_from = version;
  valid_to = none;
  content = content;
}

unfoldable pub insert_contents :
    Str → Str → ℕ → List Content → List ContributionRow → Result StoreError (List ContributionRow)
insert_contents workspace source_path version [] rows = ok rows
insert_contents workspace source_path version (content ∷ contents) rows =
    insert_row (row_at workspace source_path version content) rows
    >>= insert_contents workspace source_path version contents

abbrev pub close_prior : Str → Str → ℕ → List ContributionRow → List ContributionRow
close_prior workspace source_path version rows =
    if ltb 1 version
    then close_contribution_records workspace source_path (version - 1) rows
    else rows

-- `publicationBatch.add` of each prepared contribution, in order.
unfoldable pub store_contributions :
    Str → ℕ → List Contribution → List ContributionRow → Result StoreError (List ContributionRow)
store_contributions workspace version [] rows = ok rows
store_contributions workspace version (c ∷ cs) rows =
    insert_contents workspace c.source_path version (prepare_contribution c)
      (close_prior workspace c.source_path version rows)
    >>= store_contributions workspace version cs
