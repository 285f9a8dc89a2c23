-- ===== src/Sqlite/Publication/Latest.antt =====
-- storage/sqlite/sqlite.go: what the version that a publication creates shows.
use agent_graph.Prelude.{
  ℕ, suc, ◌+◌, ◌-◌, ◌≤◌, Str, List, [], ◌∷◌, Bool, true, false, ◌≡◌, refl, sym, arith, In, str_eq,
  mem, not-mem→not-In, Distinct, ok, ◌↔◌, ◌⊎◌, inl, inr, subst, Bool-cases, Option-cases,
}
use agent_graph.Extractor.Types.{Contribution}
use agent_graph.Sqlite.Tables.{Content, ContributionRow, Tables, is_visible, prepare_contribution}
use agent_graph.Sqlite.Tables.Visible.{Shows}
use agent_graph.Sqlite.Versions.{
  max_version, PublishRequest, VersionSnapshot, retained_graph_versions,
}
use agent_graph.Sqlite.Publication.{repeats_path, prune_old, publish}
use agent_graph.Sqlite.Publication.Isolation.{ShowsSame, delete_below-ShowsSame}
use agent_graph.Sqlite.Publication.Inserted.{first_keys}
use agent_graph.Sqlite.Publication.Stored.{paths_of, store_contributions-Written}
use agent_graph.Sqlite.Publication.Closed.{IsPast, ArePast, visible_workspace}
use agent_graph.Sqlite.Publication.Consistent.{IsWithin}
use agent_graph.Sqlite.Publication.Steps.{publish-IsPublication}
use agent_graph.Sqlite.Publication.Reads.{prune_old_cases, prune_versions-pruned}
use agent_graph.Sqlite.Publication.Preserved.{IsConsistent, stored_parts}

-- The check for repeated paths leaves distinct ones, none of them seen before.
repeats_path-Distinct :
    (cs : List Contribution) (seen : List Str)
    → repeats_path cs seen ≡ false
    → Distinct (paths_of cs) × ((p : Str) → In p (paths_of cs) → ¬ In p seen)
repeats_path-Distinct [] seen h = (tt, λ p i. absurd i)
repeats_path-Distinct (c ∷ cs) seen h = elim (Bool-cases (mem c.source_path seen)) [
  | inl t ↦ absurd (ground (arith, t, h))
  | inr f ↦
      let (distinct, fresh) =
        repeats_path-Distinct cs (c.source_path ∷ seen) (ground (arith, f, h)) in
      (
        (λ i. fresh c.source_path i (inl refl), distinct),
        λ p i j. elim i [
          | inl e ↦ not-mem→not-In c.source_path seen f (subst (λ x. In x seen) (sym e) j)
          | inr k ↦ fresh p k (inr j)
        ],
      )
]

module _ (workspace : Str) (new : ℕ) where
  within-IsPast : (row : ContributionRow) → IsWithin new row → IsPast (suc new) row
  within-IsPast row (a, b, c) = (a, omega (arith, b), λ last e. omega (arith, c last e))

  -- One version on, a consistent row is seen as before.
  visible_next :
      (row : ContributionRow)
      → IsWithin new row
      → is_visible workspace (suc new) row ≡ is_visible workspace new row
  unfolding is_visible
  visible_next row (a, b, c) = elim (Option-cases row.valid_to) [
    | inl n ↦ ground (arith, n, b)
    | inr (last, n) ↦ ground (arith, n, b, c last n)
  ]

Shows-next :
    (workspace : Str) (before : Tables) (p : Str) (c : Content)
    → IsConsistent before
    → Shows workspace (suc (max_version workspace before.graph_versions)) before.contributions p c
      ↔ Shows workspace (max_version workspace before.graph_versions) before.contributions p c
Shows-next workspace before p c within =
    let new = max_version workspace before.graph_versions in
    let own : (row : ContributionRow)
        → In row before.contributions
        → row.workspace ≡ workspace
        → IsWithin new row =
      λ row i w. subst (λ x. IsWithin (max_version x before.graph_versions) row) w (within row i) in
    (
      λ s. record {
        row = s.row;
        stored = s.stored;
        visible =
            subst (λ b. b ≡ true)
              (visible_next workspace new s.row
                (own s.row s.stored (visible_workspace workspace (suc new) s.row s.visible)))
              s.visible;
        at_path = s.at_path;
        holds = s.holds;
      },
      λ s. record {
        row = s.row;
        stored = s.stored;
        visible =
            subst (λ b. b ≡ true)
              (sym (
                visible_next workspace new s.row
                  (own s.row s.stored (visible_workspace workspace new s.row s.visible))))
              s.visible;
        at_path = s.at_path;
        holds = s.holds;
      },
    )

-- The pruning behind a publication leaves what its version shows.
kept-ShowsSame :
    (workspace : Str) (new : ℕ) (middle after : Tables)
    → prune_old workspace new middle ≡ ok after
    → 1 ≤ new
    → ShowsSame workspace new middle.contributions after.contributions
kept-ShowsSame workspace new middle after h positive =
    elim (prune_old_cases workspace new middle after h) [
      | inl e ↦
          subst (λ t. ShowsSame workspace new middle.contributions t.contributions) e
            (λ p c. (λ s. s, λ s. s))
      | inr (count, q) ↦
          subst (λ t. ShowsSame workspace new middle.contributions t.contributions)
            (prune_versions-pruned workspace _ middle q)
            (delete_below-ShowsSame workspace workspace new (new - retained_graph_versions + 1)
              middle.contributions (λ e. omega arith))
    ]

-- The version that a publication creates shows, under a path of the update, the rows of its contribution (of several with
-- one key the first), and under every other path what the version before showed.
pub publish-Shows :
    (within_budget : Tables → Bool) (time : Str) (request : PublishRequest) (before after : Tables)
    (snapshot : VersionSnapshot) (path : Str) (content : Content)
    → IsConsistent before
    → publish within_budget time request before ≡ ok (snapshot, after)
    → Shows request.workspace snapshot.version after.contributions path content ↔ (
        ((c : Contribution) × In c request.update
          × (c.source_path ≡ path)
          × In content (first_keys [] (prepare_contribution c)))
        ⊎ ((¬ In path (paths_of request.update))
            × Shows request.workspace
                (max_version request.workspace before.graph_versions)
                before.contributions
                path
                content))
publish-Shows within_budget time request before after snapshot path content within h =
    let p = publish-IsPublication within_budget time request before snapshot after h in
    let workspace = request.workspace in
    let last = max_version workspace before.graph_versions in
    let (stored, _) = stored_parts request (suc last) time before p.middle p.stored in
    let past : ArePast workspace (suc last) (paths_of request.update) before.contributions =
      λ row i w _.
        within-IsPast workspace last row
          (subst (λ x. IsWithin (max_version x before.graph_versions) row) w (within row i)) in
    let written =
      store_contributions-Written workspace (suc last) request.update before.contributions
        (repeats_path-Distinct request.update [] p.distinct).0 past stored path content in
    let kept =
      kept-ShowsSame workspace (suc last) p.middle after p.kept (omega arith) path content in
    let next = Shows-next workspace before path content within in
    subst (λ v. Shows workspace v after.contributions path content ↔ Published path content)
      (sym p.version)
      (
        λ s. elim (written.0 (kept.0 s)) [ inl c ↦ inl c | inr (n, s') ↦ inr (n, next.0 s') ],
        λ d. kept.1 (written.1 (elim d [ inl c ↦ inl c | inr (n, s) ↦ inr (n, next.1 s) ])),
      )
  where
    Published : Str → Content → Type 0
    Published p c =
        ((d : Contribution) × In d request.update
          × (d.source_path ≡ p)
          × In c (first_keys [] (prepare_contribution d)))
        ⊎ ((¬ In p (paths_of request.update))
            × Shows request.workspace (max_version request.workspace before.graph_versions)
                before.contributions p c)
