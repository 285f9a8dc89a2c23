-- ===== src/Sqlite/Publication/Reads.antt =====
-- storage/sqlite/sqlite.go: what pruning, going back and storing leave of a version.
use agent_graph.Prelude.{
  ℕ, ◌+◌, ◌-◌, ◌≤◌, ◌<◌, Str, List, [], ◌∷◌, ◌≡◌, arith, In, str_eq, ltb, ok, bind_ok, inl, inr,
  subst, ap, Bool-cases, Result-cases, ◌⊎◌, is_some,
}
use agent_graph.Sqlite.Tables.{VersionRow, Tables}
use agent_graph.Sqlite.Tables.Visible.{In-delete_where}
use agent_graph.Sqlite.Versions.{
  max_version, find_version, PublishRequest, store_contributions, retained_graph_versions,
}
use agent_graph.Sqlite.Publication.{
  version_below, version_above, prune_versions, pruned_tables, rolled_back,
  store_prepared_publication, prune_old,
}
use agent_graph.Sqlite.Publication.Isolation.{
  ShowsSame, ShowsSame-trans, store_contributions-ShowsSame, delete_above-ShowsSame,
  delete_below-ShowsSame,
}
use agent_graph.Sqlite.Publication.Holding.{
  HoldsSame, stored_facts-HoldsSame, fact_below-HoldsSame, fact_above-HoldsSame,
}

-- The version is one of the published versions of the workspace.
abbrev pub IsListed : Str → ℕ → Tables → Type 0
IsListed workspace version tables =
    (row : VersionRow) × In row tables.graph_versions
    × (row.workspace ≡ workspace)
    × (row.version ≡ version)

-- The version shows the same contributions and holds the same facts of the workspace.
abbrev pub ReadsSame : Str → ℕ → Tables → Tables → Type 0
ReadsSame workspace version before after =
    ShowsSame workspace version before.contributions after.contributions
    × HoldsSame workspace version before.workspace_facts after.workspace_facts

pub ReadsSame-trans :
    (workspace : Str) (version : ℕ) (a b c : Tables)
    → ReadsSame workspace version a b
    → ReadsSame workspace version b c
    → ReadsSame workspace version a c
ReadsSame-trans workspace version a b c f g = (
  ShowsSame-trans workspace version a.contributions b.contributions c.contributions f.0 g.0,
  λ fact. (λ i. (f.1 fact).0 ((g.1 fact).0 i), λ i. (g.1 fact).1 ((f.1 fact).1 i)),
)

pub listed-max_version :
    (workspace : Str) (version : ℕ) (rows : List VersionRow) (row : VersionRow)
    → In row rows
    → row.workspace ≡ workspace
    → row.version ≡ version
    → version ≤ max_version workspace rows
unfolding max_version
listed-max_version workspace version [] row i w v = absurd i
listed-max_version workspace version (r ∷ rows) row (inl e) w v =
    ground
      (arith, ap (λ (x : VersionRow). x.workspace) e, ap (λ (x : VersionRow). x.version) e, w, v)
listed-max_version workspace version (r ∷ rows) row (inr i) w v =
    ground (arith, listed-max_version workspace version rows row i w v)

pub prune_versions-pruned :
    (workspace : Str) (boundary : ℕ) (before : Tables) {count : ℕ} {after : Tables}
    → prune_versions workspace boundary before ≡ ok (count, after)
    → pruned_tables workspace boundary before ≡ after
unfolding prune_versions
prune_versions-pruned workspace boundary before h =
    elim (Bool-cases (is_some (find_version workspace boundary before.graph_versions))) [
      | inl t ↦ ground (arith, t, h)
      | inr f ↦ absurd (ground (arith, f, h))
    ]

pruned_tables-ReadsSame :
    (workspace other : Str) (version boundary : ℕ) (before : Tables)
    → IsListed other version (pruned_tables workspace boundary before)
    → ReadsSame other version before (pruned_tables workspace boundary before)
pruned_tables-ReadsSame workspace other version boundary before (row, i, w, v) =
    let (_, kept) =
      (In-delete_where (version_below workspace boundary) row before.graph_versions).0 i in
    let below : other ≡ workspace → boundary ≤ version = λ e. ground (arith, kept, e, w, v) in
    (
      delete_below-ShowsSame workspace other version boundary before.contributions below,
      fact_below-HoldsSame workspace other version boundary before.workspace_facts below,
    )

pub prune_versions-ReadsSame :
    (workspace other : Str) (version boundary : ℕ) (before : Tables) {count : ℕ} {after : Tables}
    → prune_versions workspace boundary before ≡ ok (count, after)
    → IsListed other version after
    → ReadsSame other version before after
prune_versions-ReadsSame workspace other version boundary before h listed =
    let e = prune_versions-pruned workspace boundary before h in
    subst (λ t. IsListed other version t → ReadsSame other version before t) e
      (pruned_tables-ReadsSame workspace other version boundary before) listed

pub rolled_back-ReadsSame :
    (workspace other : Str) (version last : ℕ) (before : Tables)
    → IsListed other version (rolled_back workspace last before)
    → ReadsSame other version before (rolled_back workspace last before)
rolled_back-ReadsSame workspace other version last before (row, i, w, v) =
    let (_, kept) =
      (In-delete_where (version_above workspace last) row before.graph_versions).0 i in
    let above : other ≡ workspace → version ≤ last = λ e. ground (arith, kept, e, w, v) in
    (
      delete_above-ShowsSame workspace other version last before.contributions above,
      fact_above-HoldsSame workspace other version last before.workspace_facts above,
    )

pub prune_old_cases :
    (workspace : Str) (new : ℕ) (before after : Tables)
    → prune_old workspace new before ≡ ok after
    → (before ≡ after)
      ⊎ ((count : ℕ) × (prune_versions workspace (new - retained_graph_versions + 1) before
            ≡ ok (count, after)))
unfolding prune_old
prune_old_cases workspace new before after h = elim (Bool-cases (ltb retained_graph_versions new)) [
  | inr f ↦ inl (ground (arith, f, h))
  | inl t ↦
      elim (Result-cases (prune_versions workspace (new - retained_graph_versions + 1) before)) [
        | inr (e, p) ↦ absurd (ground (arith, t, p, h))
        | inl ((count, fewer), p) ↦ inr (count, ground (arith, t, p, h))
      ]
]

ReadsSame-refl : (workspace : Str) (version : ℕ) (a : Tables) → ReadsSame workspace version a a
ReadsSame-refl workspace version a = (λ p c. (λ s. s, λ s. s), λ fact. (λ i. i, λ i. i))

pub prune_old-ReadsSame :
    (workspace other : Str) (version new : ℕ) (before after : Tables)
    → prune_old workspace new before ≡ ok after
    → IsListed other version after
    → ReadsSame other version before after
prune_old-ReadsSame workspace other version new before after h listed =
    elim (prune_old_cases workspace new before after h) [
      | inl same ↦ subst (ReadsSame other version before) same (ReadsSame-refl other version before)
      | inr (count, p) ↦ prune_versions-ReadsSame workspace other version _ before p listed
    ]

pub store_prepared_publication-ReadsSame :
    (request : PublishRequest) (other time : Str) (version new : ℕ) (before after : Tables)
    → (other ≡ request.workspace → version < new)
    → store_prepared_publication request new time before ≡ ok after
    → ReadsSame other version before after
unfolding store_prepared_publication
store_prepared_publication-ReadsSame request other time version new before after older h =
    let (rows, stored, rest) =
      bind_ok (store_contributions request.workspace new request.update before.contributions) _ h in
    let shown =
      store_contributions-ShowsSame request.workspace other version new older request.update
        before.contributions stored in
    let held =
      stored_facts-HoldsSame request.workspace other version new older request.workspace_facts
        request.replaced_workspace_fact_owners before.workspace_facts in
    (
      subst (ShowsSame other version before.contributions) (ground (arith, rest)) shown,
      subst (HoldsSame other version before.workspace_facts) (ground (arith, rest)) held,
    )
