-- ===== src/Sqlite/Publication/Preserved.antt =====
-- storage/sqlite/sqlite.go: what holds of the tables behind every operation.
use agent_graph.Prelude.{
  ℕ, suc, ◌≤◌, Str, List, [], true, ◌≡◌, sym, arith, is_some, ok, bind_ok, inl, inr, subst,
  Bool-cases, Option-cases,
}
use agent_graph.Sqlite.Tables.{ContributionRow, Tables}
use agent_graph.Sqlite.Versions.{
  max_version, find_version, PublishRequest, VersionSnapshot, store_contributions,
}
use agent_graph.Sqlite.Publication.{
  record_version, store_prepared_publication, prune_versions, pruned_tables, prune, rolled_back,
  rollback,
}
use agent_graph.Sqlite.Publication.Consistent.{
  AreWithin, store_contributions-AreWithin, rebased-AreWithin, reopened-AreWithin,
}
use agent_graph.Sqlite.Publication.Greatest.{
  find_version-le, max_version-pruned, max_version-rolled_back, max_version-rolled_back_other,
  max_version-record_version, max_version-record_version_le,
}
use agent_graph.Sqlite.Publication.Steps.{Step, published, pruned, went_back, publish-IsPublication}
use agent_graph.Sqlite.Publication.Reads.{prune_old_cases}

-- Each row begins with a version from 1 on that is not above the greatest of its workspace, and a row that has ended ended
-- before that one.
abbrev pub IsConsistent : Tables → Type 0
IsConsistent tables = AreWithin (λ w. max_version w tables.graph_versions) tables.contributions

AreWithin-le :
    (limit greater : Str → ℕ) (rows : List ContributionRow)
    → ((w : Str) → limit w ≤ greater w)
    → AreWithin limit rows
    → AreWithin greater rows
AreWithin-le limit greater rows le within row i =
    let (a, b, c) = within row i in
    let l = le row.workspace in (a, omega (arith, b, l), λ last e. omega (arith, c last e, l))

-- The tables behind the publication's own rows.
pub stored_parts :
    (request : PublishRequest) (new : ℕ) (time : Str) (before middle : Tables)
    → store_prepared_publication request new time before ≡ ok middle
    → (store_contributions request.workspace new request.update before.contributions
        ≡ ok middle.contributions)
      × (middle.graph_versions ≡ record_version request.workspace new time before.graph_versions)
unfolding store_prepared_publication
stored_parts request new time before middle h =
    let (rows, stored, rest) =
      bind_ok (store_contributions request.workspace new request.update before.contributions) _ h in
    let same : rows ≡ middle.contributions = ground (arith, rest) in
    (ground (arith, stored, same), ground (arith, rest))

store_prepared_publication-IsConsistent :
    (request : PublishRequest) (time : Str) (before middle : Tables)
    → store_prepared_publication request
        (suc (max_version request.workspace before.graph_versions))
        time
        before
      ≡ ok middle
    → IsConsistent before
    → IsConsistent middle
store_prepared_publication-IsConsistent request time before middle h within =
    let new = suc (max_version request.workspace before.graph_versions) in
    let later = λ (w : Str).
      max_version w (record_version request.workspace new time before.graph_versions) in
    let (stored, versions) = stored_parts request new time before middle h in
    subst (λ rows. AreWithin (λ w. max_version w rows) middle.contributions) (sym versions)
      (store_contributions-AreWithin later request.workspace new request.update before.contributions
        (max_version-record_version request.workspace time before.graph_versions) (omega arith)
        (AreWithin-le (λ w. max_version w before.graph_versions) later before.contributions
          (λ w. max_version-record_version_le request.workspace w time new before.graph_versions)
          within)
        stored)

pub prune_versions_found :
    (workspace : Str) (first count : ℕ) (before after : Tables)
    → prune_versions workspace first before ≡ ok (count, after)
    → (is_some (find_version workspace first before.graph_versions) ≡ true)
      × (pruned_tables workspace first before ≡ after)
unfolding prune_versions
prune_versions_found workspace first count before after h =
    elim (Bool-cases (is_some (find_version workspace first before.graph_versions))) [
      | inl t ↦ (t, ground (arith, t, h))
      | inr f ↦ absurd (ground (arith, f, h))
    ]

prune_versions-IsConsistent :
    (workspace : Str) (first count : ℕ) (before after : Tables)
    → prune_versions workspace first before ≡ ok (count, after)
    → IsConsistent before
    → IsConsistent after
prune_versions-IsConsistent workspace first count before after h within =
    let (found, same) = prune_versions_found workspace first count before after h in
    subst IsConsistent same (
      AreWithin-le (λ w. max_version w before.graph_versions) _ _
        (λ w. omega (arith, max_version-pruned workspace w first before.graph_versions found))
        (rebased-AreWithin (λ w. max_version w before.graph_versions) workspace first
          before.contributions (find_version-le workspace first before.graph_versions found)
          within))

rollback_found :
    (workspace : Str) (last : ℕ) (before after : Tables) (snapshot : VersionSnapshot)
    → rollback workspace last before ≡ ok (snapshot, after)
    → (is_some (find_version workspace last before.graph_versions) ≡ true)
      × (rolled_back workspace last before ≡ after)
unfolding rollback
rollback_found workspace last before after snapshot h =
    elim (Option-cases (find_version workspace last before.graph_versions)) [
      | inl n ↦ absurd (ground (arith, n, h))
      | inr (row, s) ↦ (ground (arith, s), ground (arith, s, h))
    ]

pub Step-IsConsistent :
    (before after : Tables) → Step before after → IsConsistent before → IsConsistent after
Step-IsConsistent before after (published within_budget time request snapshot h) within =
    let p = publish-IsPublication within_budget time request before snapshot after h in
    let middle =
      store_prepared_publication-IsConsistent request time before p.middle p.stored within in
    elim (prune_old_cases request.workspace _ p.middle after p.kept) [
      | inl same ↦ subst IsConsistent same middle
      | inr (count, q) ↦
          prune_versions-IsConsistent request.workspace _ count p.middle after q middle
    ]
Step-IsConsistent before after (pruned workspace boundary count h) within =
    prune_versions-IsConsistent workspace boundary count before after
      (unfold prune in ground (arith, h)) within
Step-IsConsistent before after (went_back workspace last snapshot h) within =
    let (found, same) = rollback_found workspace last before after snapshot h in
    subst IsConsistent same (
      reopened-AreWithin (λ w. max_version w before.graph_versions) _ workspace last
        before.contributions (max_version-rolled_back workspace last before.graph_versions found)
        (λ w n. max_version-rolled_back_other workspace w last before.graph_versions n) within)

-- An empty database.
abbrev pub no_tables : Tables
no_tables = record { graph_versions = []; contributions = []; workspace_facts = [] }

-- What publications, prunings and rollbacks make of it.
pub data Reach : Tables → Type 0 where
  created : Reach no_tables
  changed : {before after : Tables} → Reach before → Step before after → Reach after

-- In every database that publications, prunings and rollbacks reach, in whatever order, each row of a contribution begins
-- with a version from 1 on that is not above the greatest of its workspace, and a row that has ended ended before that one.
pub Reach-IsConsistent : (tables : Tables) → Reach tables → IsConsistent tables
Reach-IsConsistent _ created = λ row i. absurd i
Reach-IsConsistent _ (changed {before} {after} r step) =
    Step-IsConsistent before after step (Reach-IsConsistent before r)
