-- ===== src/Sqlite/Publication/Closed.antt =====
-- storage/sqlite/sqlite.go: closing the rows of a path, which ends what the next version would show of it.
use agent_graph.Prelude.{
  ℕ, ◌-◌, ◌≤◌, ◌<◌, Str, List, [], ◌∷◌, map, true, false, some, ◌≡◌, ◌≢◌, refl, sym, ap, arith, In,
  In-map, map-In, Str-discrete, str_eq, nat_eq, ltb, ◌↔◌, inl, inr, subst, if_ind, ◌∙◌,
  Option-cases,
}
use agent_graph.Sqlite.Tables.{Content, ContributionRow, is_visible, texts_eq}
use agent_graph.Sqlite.Tables.Visible.{Shows}
use agent_graph.Sqlite.Versions.{close_row, close_contribution_records, close_prior}
use agent_graph.Sqlite.Publication.Inserted.{Taken}

-- The row began before the version, and if it has ended, it ended before the version.
abbrev pub IsPast : ℕ → ContributionRow → Type 0
IsPast new row =
    (1 ≤ row.valid_from)
    × (row.valid_from < new)
    × ((last : ℕ) → row.valid_to ≡ some last → last < new)

abbrev pub ArePast : Str → ℕ → List Str → List ContributionRow → Type 0
ArePast workspace new paths rows =
    (row : ContributionRow)
    → In row rows
    → row.workspace ≡ workspace
    → In row.source_path paths
    → IsPast new row

module _ (workspace : Str) (new : ℕ) where
  pub free-Taken :
      (path : Str) (rows : List ContributionRow)
      → ArePast workspace new (path ∷ []) rows
      → Taken workspace path new rows []
  free-Taken path [] past content = refl
  free-Taken path (row ∷ rows) past content =
      ground (arith, past row (inl refl), free-Taken path rows (λ r i. past r (inr i)) content)

  -- Closing rows takes no key of the new version.
  pub still_free :
      (path : Str) (rows : List ContributionRow)
      → ArePast workspace new (path ∷ []) rows
      → Taken workspace path new (map (close_row workspace path (new - 1)) rows) []
  still_free path [] past content = refl
  still_free path (row ∷ rows) past content =
      ground (arith, past row (inl refl), still_free path rows (λ r i. past r (inr i)) content)

  hidden_past :
      (path : Str) (row : ContributionRow)
      → row.workspace ≡ workspace
      → row.source_path ≡ path
      → IsPast new row
      → is_visible workspace new (close_row workspace path (new - 1) row) ≡ false
  unfolding is_visible
  hidden_past path row w e (_, before, ended) = elim (Option-cases row.valid_to) [
    | inl n ↦ ground (arith, w, e, n, before)
    | inr (last, n) ↦ ground (arith, w, e, n, ended last n)
  ]

  pub closed_same :
      (path : Str) (last : ℕ) (row : ContributionRow)
      → row.source_path ≢ path
      → close_row workspace path last row ≡ row
  closed_same path last row n = ground (arith, n)

  pub closed_path :
      (path : Str) (last : ℕ) (row : ContributionRow)
      → (close_row workspace path last row).source_path ≡ row.source_path
  closed_path path last row = ground arith

  pub visible_workspace :
      (row : ContributionRow) → is_visible workspace new row ≡ true → row.workspace ≡ workspace
  unfolding is_visible
  visible_workspace row h = ground (arith, h)

  closed_workspace :
      (path : Str) (last : ℕ) (row : ContributionRow)
      → (close_row workspace path last row).workspace ≡ row.workspace
  closed_workspace path last row = ground arith

  Shows-closed :
      (path : Str) (rows : List ContributionRow) (p : Str) (c : Content)
      → ArePast workspace new (path ∷ []) rows
      → Shows workspace new (map (close_row workspace path (new - 1)) rows) p c
        ↔ ((path ≢ p) × Shows workspace new rows p c)
  Shows-closed path rows p c past = (
    λ s.
        let (old, i, e) = map-In (close_row workspace path (new - 1)) rows s.stored in
        let same_path : old.source_path ≡ p =
          sym (closed_path path (new - 1) old)
          ∙ ap (λ (r : ContributionRow). r.source_path) e
          ∙ s.at_path in
        let seen : is_visible workspace new (close_row workspace path (new - 1) old) ≡ true =
          subst (λ r. is_visible workspace new r ≡ true) (sym e) s.visible in
        elim (Str-discrete old.source_path path) [
          | yes q ↦
              let w : old.workspace ≡ workspace =
                sym (closed_workspace path (new - 1) old) ∙ visible_workspace _ seen in
              let gone = hidden_past path old w q (past old i w (inl (sym q))) in
              absurd (ground (arith, gone, seen))
          | no n ↦
              let kept = closed_same path (new - 1) old n in
              (
                λ q. n (same_path ∙ sym q),
                record {
                  row = old;
                  stored = i;
                  visible = subst (λ r. is_visible workspace new r ≡ true) kept seen;
                  at_path = same_path;
                  holds =
                      ap (λ (r : ContributionRow). r.content) (sym kept)
                      ∙ ap (λ (r : ContributionRow). r.content) e
                      ∙ s.holds;
                },
              )
        ],
    λ (n, s).
        let kept = closed_same path (new - 1) s.row (λ q. n (sym q ∙ s.at_path)) in
        record {
          row = s.row;
          stored =
              subst (λ r. In r (map (close_row workspace path (new - 1)) rows)) kept
                (In-map (close_row workspace path (new - 1)) s.row rows s.stored);
          visible = s.visible;
          at_path = s.at_path;
          holds = s.holds;
        },
  )

  -- Where the version is the first, no row of the path is there.
  pub Shows-close_prior :
      (path : Str) (rows : List ContributionRow) (p : Str) (c : Content)
      → ArePast workspace new (path ∷ []) rows
      → Shows workspace new (close_prior workspace path new rows) p c
        ↔ ((path ≢ p) × Shows workspace new rows p c)
  unfolding close_contribution_records
  Shows-close_prior path rows p c past =
      if_ind (λ r. Shows workspace new r p c ↔ ((path ≢ p) × Shows workspace new rows p c))
        (ltb 1 new) (λ t. Shows-closed path rows p c past)
        (λ f. (
          λ s. (
            λ q.
                let (first, before, _) =
                  past s.row s.stored (visible_workspace s.row s.visible)
                    (inl (q ∙ sym s.at_path)) in
                ground (arith, f, first, before),
            s,
          ),
          λ (n, s). s,
        ))
