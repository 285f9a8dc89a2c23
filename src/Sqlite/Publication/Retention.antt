-- ===== src/Sqlite/Publication/Retention.antt =====
-- storage/sqlite/sqlite.go: which versions can be opened behind a pruning, and what a pruning does to the next publication.
use agent_graph.Prelude.{
  ℕ, suc, ◌+◌, ◌-◌, ◌≤◌, ◌<◌, Str, List, [], ◌∷◌, Bool, true, false, none, some, ◌≡◌, ◌≢◌, refl,
  sym, ap, arith, str_eq, nat_eq, is_empty, is_some, ok, err, inl, inr, subst, Bool-cases,
  Option-cases, Result-cases,
}
use agent_graph.Sqlite.Tables.{VersionRow, Tables, delete_where}
use agent_graph.Sqlite.Versions.{
  max_version, find_version, min_version, graph_version_was_pruned, open_snapshot, StoreError,
  graph_version_pruned, PublishRequest, VersionSnapshot, retained_graph_versions,
}
use agent_graph.Sqlite.Publication.{
  version_below, record_version, prune_versions, pruned_tables, prune, prune_old, publish,
}
use agent_graph.Sqlite.Publication.Greatest.{find_version-le, max_version-pruned}
use agent_graph.Sqlite.Publication.Steps.{publish-IsPublication}
use agent_graph.Sqlite.Publication.Preserved.{prune_versions_found, stored_parts}

module _ (workspace : Str) (first : ℕ) where
  -- No version below the boundary is left, and the others are found as before.
  find_version-below :
      (version : ℕ) (rows : List VersionRow)
      → version < first
      → find_version workspace version (delete_where (version_below workspace first) rows) ≡ none
  unfolding find_version delete_where
  find_version-below version [] h = refl
  find_version-below version (row ∷ rows) h = ground (arith, h, find_version-below version rows h)

  find_version-above :
      (version : ℕ) (rows : List VersionRow)
      → first ≤ version
      → find_version workspace version (delete_where (version_below workspace first) rows)
        ≡ find_version workspace version rows
  unfolding find_version delete_where
  find_version-above version [] h = refl
  find_version-above version (row ∷ rows) h = ground (arith, h, find_version-above version rows h)

  min_version-le :
      (rows : List VersionRow) (least : ℕ)
      → min_version workspace (delete_where (version_below workspace first) rows) ≡ some least
      → first ≤ least
  unfolding min_version delete_where
  min_version-le [] least h = absurd (ground arith)
  min_version-le (row ∷ rows) least h =
      elim (Option-cases
        (min_version workspace (delete_where (version_below workspace first) rows))) [
          | inl n ↦ ground (arith, n, h)
          | inr (m, n) ↦ ground (arith, n, h, min_version-le rows m n)
        ]

  min_version_some :
      (version : ℕ) (rows : List VersionRow)
      → is_some (find_version workspace version rows) ≡ true
      → is_some (min_version workspace rows) ≡ true
  unfolding find_version min_version
  min_version_some version [] h = absurd (ground arith)
  min_version_some version (row ∷ rows) h = elim (Option-cases (min_version workspace rows)) [
    | inl n ↦ ground (arith, n, h, min_version_some version rows)
    | inr (m, n) ↦ ground (arith, n)
  ]

  pruned_below :
      (version : ℕ) (rows : List VersionRow)
      → is_some (find_version workspace first rows) ≡ true
      → 0 < version
      → version < first
      → graph_version_was_pruned workspace version
          (delete_where (version_below workspace first) rows)
        ≡ true
  unfolding graph_version_was_pruned
  pruned_below version rows found positive below =
      let kept = delete_where (version_below workspace first) rows in
      let still : is_some (find_version workspace first kept) ≡ true =
        ground (arith, find_version-above first rows, found) in
      elim (Option-cases (min_version workspace kept)) [
        | inl n ↦ absurd (ground (arith, n, min_version_some first kept still))
        | inr (least, n) ↦ ground (arith, n, min_version-le rows least n, positive, below)
      ]

prune_found :
    (workspace : Str) (first count : ℕ) (before after : Tables)
    → prune workspace first before ≡ ok (count, after)
    → (is_empty workspace ≡ false)
      × (is_some (find_version workspace first before.graph_versions) ≡ true)
      × (pruned_tables workspace first before ≡ after)
unfolding prune
prune_found workspace first count before after h = elim (Bool-cases (is_empty workspace)) [
  | inl t ↦ absurd (ground (arith, t, h))
  | inr f ↦
      let p : prune_versions workspace first before ≡ ok (count, after) = ground (arith, f, h) in
      let (found, same) = prune_versions_found workspace first count before after p in
      (f, found, same)
]

module _ (workspace : Str) (first : ℕ) (before : Tables) where
  open_below :
      (version : ℕ)
      → is_empty workspace ≡ false
      → is_some (find_version workspace first before.graph_versions) ≡ true
      → 0 < version
      → version < first
      → open_snapshot workspace (some version) (pruned_tables workspace first before)
        ≡ err graph_version_pruned
  unfolding open_snapshot
  open_below version named found positive below = ground (
    arith,
    named,
    pruned_below workspace first version before.graph_versions found positive below,
    find_version-below workspace first version before.graph_versions below,
  )

  open_above :
      (version : ℕ) (snapshot : VersionSnapshot)
      → first ≤ version
      → open_snapshot workspace (some version) before ≡ ok snapshot
      → open_snapshot workspace (some version) (pruned_tables workspace first before) ≡ ok snapshot
  unfolding open_snapshot
  open_above version snapshot above opened =
      elim (Option-cases (find_version workspace version before.graph_versions)) [
        | inl n ↦ absurd (ground (arith, n, opened))
        | inr (row, n) ↦ ground (
          arith,
          n,
          opened,
          find_version-above workspace first version before.graph_versions above,
        )
      ]

  open_latest_kept :
      is_some (find_version workspace first before.graph_versions) ≡ true
      → open_snapshot workspace none (pruned_tables workspace first before)
        ≡ open_snapshot workspace none before
  unfolding open_snapshot
  open_latest_kept found =
      let kept = delete_where (version_below workspace first) before.graph_versions in
      let there =
        find_version-above workspace first (max_version workspace before.graph_versions)
          before.graph_versions (find_version-le workspace first before.graph_versions found) in
      let same : find_version workspace (max_version workspace kept) kept
          ≡ find_version workspace (max_version workspace before.graph_versions)
              before.graph_versions =
        subst
          (λ m.
            find_version workspace m kept
            ≡ find_version workspace (max_version workspace before.graph_versions)
                before.graph_versions)
          (sym (max_version-pruned workspace workspace first before.graph_versions found)) there in
      ground (arith, same)

-- Behind a pruning the versions below its boundary answer that they were pruned, a version from the boundary on opens as it
-- did, and so does the latest.
pub prune_opens :
    (workspace : Str) (first count version : ℕ) (before after : Tables)
    → prune workspace first before ≡ ok (count, after)
    → (0 < version
        → version < first
        → open_snapshot workspace (some version) after ≡ err graph_version_pruned)
      × ((snapshot : VersionSnapshot)
          → first ≤ version
          → open_snapshot workspace (some version) before ≡ ok snapshot
          → open_snapshot workspace (some version) after ≡ ok snapshot)
      × (open_snapshot workspace none after ≡ open_snapshot workspace none before)
prune_opens workspace first count version before after h =
    let (named, found, same) = prune_found workspace first count before after h in
    (
      λ positive below.
          subst (λ t. open_snapshot workspace (some version) t ≡ err graph_version_pruned) same
            (open_below workspace first before version named found positive below),
      λ snapshot above opened.
          subst (λ t. open_snapshot workspace (some version) t ≡ ok snapshot) same
            (open_above workspace first before version snapshot above opened),
      subst (λ t. open_snapshot workspace none t ≡ open_snapshot workspace none before) same
          (open_latest_kept workspace first before found),
    )

find_version-recorded :
    (workspace time : Str) (version new : ℕ) (rows : List VersionRow)
    → version ≢ new
    → find_version workspace version (record_version workspace new time rows)
      ≡ find_version workspace version rows
unfolding find_version
find_version-recorded workspace time version new rows n = ground (arith, n)

-- With more versions than are retained, the oldest one to be retained has to be there.
prune_old_needs :
    (workspace : Str) (new : ℕ) (middle after : Tables)
    → prune_old workspace new middle ≡ ok after
    → retained_graph_versions < new
    → is_some (find_version workspace (new - retained_graph_versions + 1) middle.graph_versions)
      ≡ true
unfolding prune_old prune_versions
prune_old_needs workspace new middle after h many =
    elim (Bool-cases (
      is_some (find_version workspace (new - retained_graph_versions + 1) middle.graph_versions))) [
        | inl t ↦ t
        | inr f ↦ absurd (ground (arith, f, h, many))
      ]

-- Once a workspace has had 25 versions, a pruning that removes the one that the next publication would prune up to makes
-- every publication fail, whatever it asks for: the pruning at its end does not find its boundary.
pub publish_fails_after_prune :
    (within_budget : Tables → Bool) (time : Str) (request : PublishRequest) (boundary count : ℕ)
    (before after : Tables)
    → prune request.workspace boundary before ≡ ok (count, after)
    → retained_graph_versions ≤ max_version request.workspace before.graph_versions
    → max_version request.workspace before.graph_versions + 2 < boundary + retained_graph_versions
    → (e : StoreError) × (publish within_budget time request after ≡ err e)
publish_fails_after_prune within_budget time request boundary count before after h many gap =
    elim (Result-cases (publish within_budget time request after)) [
      | inr failure ↦ failure
      | inl ((snapshot, published), p) ↦ absurd (fails snapshot published p)
    ]
  where
    fails :
        (snapshot : VersionSnapshot) (published : Tables)
        → ¬ (publish within_budget time request after ≡ ok (snapshot, published))
    fails snapshot published p =
        let w = request.workspace in
        let (_, found, same) = prune_found w boundary count before after h in
        let versions : delete_where (version_below w boundary) before.graph_versions
            ≡ after.graph_versions =
          ap (λ (t : Tables). t.graph_versions) same in
        let greatest : max_version w after.graph_versions ≡ max_version w before.graph_versions =
          subst (λ r. max_version w r ≡ max_version w before.graph_versions) versions
            (max_version-pruned w w boundary before.graph_versions found) in
        let done = publish-IsPublication within_budget time request after snapshot published p in
        let new = suc (max_version w after.graph_versions) in
        let oldest = new - retained_graph_versions + 1 in
        let (_, recorded) = stored_parts request new time after done.middle done.stored in
        let needed =
          prune_old_needs w new done.middle published done.kept (omega (arith, greatest, many)) in
        let gone : find_version w oldest after.graph_versions ≡ none =
          subst (λ r. find_version w oldest r ≡ none) versions
            (find_version-below w boundary oldest before.graph_versions
              (omega (arith, greatest, gap))) in
        let there : is_some (find_version w oldest (record_version w new time after.graph_versions))
            ≡ true =
          subst (λ r. is_some (find_version w oldest r) ≡ true) recorded needed in
        let other =
          find_version-recorded w time oldest new after.graph_versions (λ q. omega (arith, q)) in
        ground (arith, gone, there, other)
