-- ===== src/Sqlite/Publication/Steps.antt =====
-- storage/sqlite/sqlite.go: the operations that change the versions of a graph, as steps.
use agent_graph.Prelude.{
  ℕ, suc, ◌<◌, Str, [], Bool, false, ◌≡◌, arith, str_eq, ok, inl, inr, subst, Bool-cases,
  Option-cases, Result-cases, is_empty,
}
use agent_graph.Sqlite.Tables.{Tables}
use agent_graph.Sqlite.Versions.{max_version, find_version, PublishRequest, VersionSnapshot}
use agent_graph.Sqlite.Publication.{
  prune_versions, prune, rolled_back, rollback, repeats_path, store_prepared_publication, prune_old,
  publish,
}
use agent_graph.Sqlite.Publication.Reads.{
  IsListed, ReadsSame, ReadsSame-trans, listed-max_version, prune_versions-ReadsSame,
  rolled_back-ReadsSame, prune_old-ReadsSame, store_prepared_publication-ReadsSame,
}

-- An operation that succeeded.
pub data Step (before after : Tables) : Type 0 where
  published :
      (within_budget : Tables → Bool) (time : Str) (request : PublishRequest)
      (snapshot : VersionSnapshot)
      → publish within_budget time request before ≡ ok (snapshot, after)
      → Step before after
  pruned :
      (workspace : Str) (boundary count : ℕ)
      → prune workspace boundary before ≡ ok (count, after)
      → Step before after
  went_back :
      (workspace : Str) (version : ℕ) (snapshot : VersionSnapshot)
      → rollback workspace version before ≡ ok (snapshot, after)
      → Step before after

-- What a publication that succeeds has done.
pub record IsPublication (time : Str) (request : PublishRequest) (snapshot : VersionSnapshot)
    (before after : Tables) : Type 0 where
  pub named : is_empty request.workspace ≡ false
  pub distinct : repeats_path request.update [] ≡ false
  pub version : snapshot.version ≡ suc (max_version request.workspace before.graph_versions)
  pub workspace : snapshot.workspace ≡ request.workspace
  pub middle : Tables
  pub stored :
      store_prepared_publication request
        (suc (max_version request.workspace before.graph_versions))
        time
        before
      ≡ ok middle
  pub kept :
      prune_old request.workspace (suc (max_version request.workspace before.graph_versions)) middle
      ≡ ok after

pub publish-IsPublication :
    (within_budget : Tables → Bool) (time : Str) (request : PublishRequest) (before : Tables)
    (snapshot : VersionSnapshot) (after : Tables)
    → publish within_budget time request before ≡ ok (snapshot, after)
    → IsPublication time request snapshot before after
unfolding publish
publish-IsPublication within_budget time request before snapshot after h =
    elim (Bool-cases (is_empty request.workspace)) [
      | inl t ↦ absurd (ground (arith, t, h))
      | inr named ↦ elim (Bool-cases (repeats_path request.update [])) [
        | inl t ↦ absurd (ground (arith, named, t, h))
        | inr distinct ↦
            let new = suc (max_version request.workspace before.graph_versions) in
            elim (Result-cases (store_prepared_publication request new time before)) [
              | inr (e, p) ↦ absurd (ground (arith, named, distinct, p, h))
              | inl (middle, p) ↦ elim (Result-cases (prune_old request.workspace new middle)) [
                | inr (e, q) ↦ absurd (ground (arith, named, distinct, p, q, h))
                | inl (final, q) ↦ elim (Bool-cases (within_budget final)) [
                  | inr f ↦ absurd (ground (arith, named, distinct, p, q, f, h))
                  | inl t ↦ record {
                    named = named;
                    distinct = distinct;
                    version = ground (arith, named, distinct, p, q, t, h);
                    workspace = ground (arith, named, distinct, p, q, t, h);
                    middle = middle;
                    stored = p;
                    kept = ground (arith, named, distinct, p, q, t, h);
                  }
                ]
              ]
            ]
      ]
    ]

prune-ReadsSame :
    (workspace other : Str) (version boundary count : ℕ) (before after : Tables)
    → prune workspace boundary before ≡ ok (count, after)
    → IsListed other version after
    → ReadsSame other version before after
unfolding prune
prune-ReadsSame workspace other version boundary count before after h listed =
    let p : prune_versions workspace boundary before ≡ ok (count, after) = ground (arith, h) in
    prune_versions-ReadsSame workspace other version boundary before p listed

rollback-rolled_back :
    (workspace : Str) (version : ℕ) (before after : Tables) (snapshot : VersionSnapshot)
    → rollback workspace version before ≡ ok (snapshot, after)
    → rolled_back workspace version before ≡ after
unfolding rollback
rollback-rolled_back workspace version before after snapshot h =
    elim (Option-cases (find_version workspace version before.graph_versions)) [
      | inl n ↦ absurd (ground (arith, n, h))
      | inr (row, s) ↦ ground (arith, s, h)
    ]

-- No operation changes what a published version shows: a version that is listed before and after a publication, a pruning
-- or a rollback, of its own workspace or another one, shows the same contributions and holds the same facts of the
-- workspace.
pub Step-ReadsSame :
    (before after : Tables) (workspace : Str) (version : ℕ)
    → Step before after
    → IsListed workspace version before
    → IsListed workspace version after
    → ReadsSame workspace version before after
Step-ReadsSame before after workspace version (published within_budget time request snapshot h)
      (row, i, w, v) listed =
    let p = publish-IsPublication within_budget time request before snapshot after h in
    let bound = listed-max_version workspace version before.graph_versions row i w v in
    let older : workspace ≡ request.workspace
        → version < suc (max_version request.workspace before.graph_versions) =
      λ e.
        subst (λ x. version < suc (max_version x before.graph_versions)) e (omega (arith, bound)) in
    ReadsSame-trans workspace version before p.middle after
      (store_prepared_publication-ReadsSame request workspace time version _ before p.middle older
        p.stored)
      (prune_old-ReadsSame request.workspace workspace version _ p.middle after p.kept listed)
Step-ReadsSame before after workspace version (pruned other boundary count h) was listed =
    prune-ReadsSame other workspace version boundary count before after h listed
Step-ReadsSame before after workspace version (went_back other last snapshot h) was listed =
    let e = rollback-rolled_back other last before after snapshot h in
    subst (λ t. IsListed workspace version t → ReadsSame workspace version before t) e
      (rolled_back-ReadsSame other workspace version last before) listed
