-- ===== src/Sqlite/Publication/Examples.antt =====
-- A workspace that is published, pruned and taken back, and the theorems at it.
use agent_graph.Prelude.{
  ℕ, zero, suc, ◌≤◌, ◌<◌, Str, bytes, List, [], ◌∷◌, Bool, true, Option, none, some, ◌≡◌, refl,
  arith, ok, err, Str-discrete, ℕ_discrete, ◌↔◌, ◌⊎◌, In, inl,
}
use agent_graph.Prelude.Int.{pos}
use agent_graph.Graph.Types.{Node, FactEvidence}
use agent_graph.Extractor.Types.{Contribution}
use agent_graph.Sqlite.Tables
use agent_graph.Sqlite.Tables.{
  Content, file_content, node_content, Tables, VersionRow, prepare_contribution,
}
use agent_graph.Sqlite.Tables.Visible.{Shows}
use agent_graph.Sqlite.Versions
use agent_graph.Sqlite.Versions.{
  StoreError, graph_version_pruned, PublishRequest, VersionSnapshot, max_version, open_snapshot,
  retained_graph_versions,
}
use agent_graph.Sqlite.Publication
use agent_graph.Sqlite.Publication.{publish, prune, rollback}
use agent_graph.Sqlite.Publication.Inserted.{first_keys}
use agent_graph.Sqlite.Publication.Stored.{paths_of}
use agent_graph.Sqlite.Publication.Latest.{publish-Shows}
use agent_graph.Sqlite.Publication.Steps.{published, pruned, Step-ReadsSame}
use agent_graph.Sqlite.Publication.Reads.{ReadsSame}
use agent_graph.Sqlite.Publication.Preserved.{
  IsConsistent, no_tables, Reach, created, changed, Reach-IsConsistent,
}
use agent_graph.Sqlite.Publication.Retention.{prune_opens, publish_fails_after_prune}

unfoldable run : Unit {0}
unfolding publish prune rollback open_snapshot max_version Versions.find_version
    Versions.min_version Versions.graph_version_was_pruned Versions.close_contribution_records
    Versions.reopen_contribution_records Versions.rebase_contributions Versions.insert_row
    Versions.insert_contents Versions.store_contributions Publication.insert_facts
    Publication.store_workspace_facts Publication.copied_rows Publication.retain_workspace_facts
    Publication.prune_versions Publication.store_prepared_publication Publication.prune_old
    prepare_contribution Tables.delete_where Tables.texts-discrete Str-discrete ℕ_discrete
run = tt

abbrev evidence : FactEvidence
evidence = record {
  span = record {
    path = bytes "a.go";
    start_line = pos 1;
    start_column = pos 1;
    end_line = pos 1;
    end_column = pos 2;
  };
  file_hash = bytes "h";
  extractor = bytes "go";
  provenance = bytes "syntax";
  confidence = bytes "extracted";
}

abbrev node : Str → Node
node id = record {
  id = id;
  kind = bytes "function";
  label = id;
  qualified_name = id;
  evidence = evidence;
}

abbrev contribution : Str → List Node → Contribution
contribution path nodes = record {
  project_id = bytes "project:.";
  source_path = path;
  metadata = record { name = bytes "go"; version = bytes "1"; extensions = [] };
  facts = record { nodes = nodes; edges = [] };
  unresolved_references = [];
  symbol_references = [];
  exported_surfaces = [];
  dependencies = [];
  diagnostics = [];
}

abbrev request : List Contribution → PublishRequest
request update = record {
  workspace = bytes "w";
  update = update;
  workspace_facts = record { nodes = []; edges = [] };
  replaced_workspace_fact_owners = [];
}

abbrev always : Tables → Bool
always tables = true

abbrev first_request : PublishRequest
first_request =
    request
      (contribution (bytes "a.go") (node (bytes "f") ∷ []) ∷ contribution (bytes "b.go") [] ∷ [])

abbrev second_request : PublishRequest
second_request = request (contribution (bytes "a.go") (node (bytes "g") ∷ []) ∷ [])

abbrev after_publish : PublishRequest → Tables → Tables
after_publish r tables = elim (publish always (bytes "now") r tables) [
  | ok (s, t) ↦ t
  | err e ↦ tables
]

abbrev row : Str → ℕ → Option ℕ → Content → Tables.ContributionRow
row path from to content = record {
  workspace = bytes "w";
  source_path = path;
  valid_from = from;
  valid_to = to;
  content = content;
}

abbrev file : Content
file = file_content (bytes "project:.") (bytes "go") (bytes "1")

abbrev version_row : ℕ → VersionRow
version_row version = record {
  workspace = bytes "w";
  version = version;
  published_at = bytes "now";
}

abbrev snapshot : ℕ → VersionSnapshot
snapshot version = record { workspace = bytes "w"; version = version; published_at = bytes "now" }

abbrev first : Tables
first = record {
  graph_versions = version_row 1 ∷ [];
  contributions =
      row (bytes "b.go") 1 none file
      ∷ row (bytes "a.go") 1 none (node_content (node (bytes "f")))
      ∷ row (bytes "a.go") 1 none file
      ∷ [];
  workspace_facts = [];
}

abbrev second : Tables
second = record {
  graph_versions = version_row 2 ∷ version_row 1 ∷ [];
  contributions =
      row (bytes "a.go") 2 none (node_content (node (bytes "g")))
      ∷ row (bytes "a.go") 2 none file
      ∷ row (bytes "b.go") 1 none file
      ∷ row (bytes "a.go") 1 (some 1) (node_content (node (bytes "f")))
      ∷ row (bytes "a.go") 1 (some 1) file
      ∷ [];
  workspace_facts = [];
}

publishes_first : publish always (bytes "now") first_request no_tables ≡ ok (snapshot 1, first)
unfolding run
publishes_first = refl

publishes_second : publish always (bytes "now") second_request first ≡ ok (snapshot 2, second)
unfolding run
publishes_second = refl

-- Going back opens the rows again.
goes_back : rollback (bytes "w") 1 second ≡ ok (snapshot 1, first)
unfolding run
goes_back = refl

abbrev newest : Tables
newest = record {
  graph_versions = version_row 2 ∷ [];
  contributions =
      row (bytes "a.go") 2 none (node_content (node (bytes "g")))
      ∷ row (bytes "a.go") 2 none file
      ∷ row (bytes "b.go") 2 none file
      ∷ [];
  workspace_facts = [];
}

prunes : prune (bytes "w") 2 second ≡ ok (1, newest)
unfolding run
prunes = refl

second_reached : Reach second
second_reached =
    changed
      (changed created (published always (bytes "now") first_request (snapshot 1) publishes_first))
      (published always (bytes "now") second_request (snapshot 2) publishes_second)

Reach-IsConsistent_example : IsConsistent second
Reach-IsConsistent_example = Reach-IsConsistent second second_reached

Step-ReadsSame_example : ReadsSame (bytes "w") 2 second newest
Step-ReadsSame_example =
    Step-ReadsSame second newest (bytes "w") 2 (pruned (bytes "w") 2 1 prunes)
      (version_row 2, inl refl, refl, refl) (version_row 2, inl refl, refl, refl)

first-IsConsistent : IsConsistent first
first-IsConsistent =
    Reach-IsConsistent first
      (changed created (published always (bytes "now") first_request (snapshot 1) publishes_first))

publish-Shows_example : Shows (bytes "w") 2 second.contributions (bytes "b.go") file ↔ (
    ((c : Contribution) × In c second_request.update
      × (c.source_path ≡ bytes "b.go")
      × In file (first_keys [] (prepare_contribution c)))
    ⊎ ((¬ In (bytes "b.go") (paths_of second_request.update))
        × Shows
            (bytes "w")
            (max_version (bytes "w") first.graph_versions)
            first.contributions
            (bytes "b.go")
            file))
publish-Shows_example =
    publish-Shows always (bytes "now") second_request first second (snapshot 2) (bytes "b.go") file
      first-IsConsistent publishes_second

prune_opens_example :
    (0 < 1 → 1 < 2 → open_snapshot (bytes "w") (some 1) newest ≡ err graph_version_pruned)
    × ((s : VersionSnapshot)
        → 2 ≤ 1
        → open_snapshot (bytes "w") (some 1) second ≡ ok s
        → open_snapshot (bytes "w") (some 1) newest ≡ ok s)
    × (open_snapshot (bytes "w") none newest ≡ open_snapshot (bytes "w") none second)
prune_opens_example = prune_opens (bytes "w") 2 1 1 second newest prunes

-- A workspace with 25 versions, and what is left of it.
abbrev versions_from : ℕ → List VersionRow
versions_from zero = []
versions_from (suc n) = version_row (suc n) ∷ versions_from n

abbrev grown : Tables
grown = record { graph_versions = versions_from 25; contributions = []; workspace_facts = [] }

abbrev cut : Tables
cut = record { graph_versions = version_row 25 ∷ []; contributions = []; workspace_facts = [] }

cuts : prune (bytes "w") 25 grown ≡ ok (24, cut)
unfolding run
cuts = refl

grown_max : max_version (bytes "w") grown.graph_versions ≡ 25
unfolding run
grown_max = refl

publish_fails_after_prune_example :
    (e : StoreError) × (publish always (bytes "now") second_request cut ≡ err e)
publish_fails_after_prune_example =
    publish_fails_after_prune always (bytes "now") second_request 25 24 grown cut cuts
      (omega (arith, grown_max)) (omega (arith, grown_max))
