-- ===== src/Sqlite/Publication/Isolation.antt =====
-- storage/sqlite/sqlite.go: a version that stays listed shows what it showed.
use agent_graph.Prelude.{
  ℕ, ◌-◌, ◌≤◌, ◌<◌, Str, List, [], ◌∷◌, map, true, false, ◌≡◌, arith, str_eq, ltb, ok, ◌↔◌, ◌⊎◌,
  inl, inr, subst, sym, Bool-cases, bind_ok, map-In, if_ind,
}
use agent_graph.Extractor.Types.{Contribution}
use agent_graph.Sqlite.Tables.{
  Content, file_content, ContributionRow, is_visible, delete_where, prepare_contribution,
}
use agent_graph.Sqlite.Tables.Visible.{Shows, Keeps, Shows-map, Shows-cons, Shows-delete_where}
use agent_graph.Sqlite.Versions.{
  close_row, reopen_row, rebase_row, close_contribution_records, reopen_contribution_records,
  rebase_contributions, insert_row, row_at, any_row, same_key, insert_contents, close_prior,
  store_contributions, on_conflict,
}
use agent_graph.Sqlite.Publication.{contribution_below, contribution_above}

visible_close :
    (workspace other path : Str) (version last : ℕ) (row : ContributionRow)
    → (other ≡ workspace → version ≤ last)
    → is_visible other version (close_row workspace path last row) ≡ is_visible other version row
unfolding is_visible
visible_close workspace other path version last row h = ground (arith, h)

visible_reopen :
    (workspace other : Str) (version last : ℕ) (row : ContributionRow)
    → (other ≡ workspace → version ≤ last)
    → is_visible other version (reopen_row workspace last row) ≡ is_visible other version row
unfolding is_visible
visible_reopen workspace other version last row h = ground (arith, h)

visible_rebase :
    (workspace other : Str) (version first : ℕ) (row : ContributionRow)
    → (other ≡ workspace → first ≤ version)
    → is_visible other version (rebase_row workspace first row) ≡ is_visible other version row
unfolding is_visible
visible_rebase workspace other version first row h = ground (arith, h)

close-Keeps :
    (workspace other path : Str) (version last : ℕ)
    → (other ≡ workspace → version ≤ last)
    → Keeps other version (close_row workspace path last)
close-Keeps workspace other path version last h = record {
  visible = λ row. visible_close workspace other path version last row h;
  path = λ row. ground arith;
  content = λ row. ground arith;
}

reopen-Keeps :
    (workspace other : Str) (version last : ℕ)
    → (other ≡ workspace → version ≤ last)
    → Keeps other version (reopen_row workspace last)
reopen-Keeps workspace other version last h = record {
  visible = λ row. visible_reopen workspace other version last row h;
  path = λ row. ground arith;
  content = λ row. ground arith;
}

rebase-Keeps :
    (workspace other : Str) (version first : ℕ)
    → (other ≡ workspace → first ≤ version)
    → Keeps other version (rebase_row workspace first)
rebase-Keeps workspace other version first h = record {
  visible = λ row. visible_rebase workspace other version first row h;
  path = λ row. ground arith;
  content = λ row. ground arith;
}

-- A version of a workspace shows the same of both tables.
abbrev pub ShowsSame : Str → ℕ → List ContributionRow → List ContributionRow → Type 0
ShowsSame workspace version before after =
    (path : Str) (content : Content)
    → Shows workspace version after path content ↔ Shows workspace version before path content

pub ShowsSame-trans :
    (workspace : Str) (version : ℕ) (a b c : List ContributionRow)
    → ShowsSame workspace version a b
    → ShowsSame workspace version b c
    → ShowsSame workspace version a c
ShowsSame-trans workspace version a b c f g path content =
    (λ s. (f path content).0 ((g path content).0 s), λ s. (g path content).1 ((f path content).1 s))

visible_new :
    (workspace other path : Str) (version new : ℕ) (content : Content)
    → (other ≡ workspace → version < new)
    → is_visible other version (row_at workspace path new content) ≡ false
unfolding is_visible
visible_new workspace other path version new content h = ground (arith, h)

pub on_conflict_lem :
    (content : Content) (rows : List ContributionRow) {after : List ContributionRow}
    → on_conflict content rows ≡ ok after
    → after ≡ rows
on_conflict_lem (file_content a b c) rows h = absurd (ground arith)
on_conflict_lem _ rows h = ground arith

-- An insertion adds the row or, where its key is taken, nothing.
pub insert_row_cases :
    (row : ContributionRow) (rows : List ContributionRow) {after : List ContributionRow}
    → insert_row row rows ≡ ok after
    → (after ≡ rows) ⊎ (after ≡ row ∷ rows)
unfolding insert_row
insert_row_cases row rows {after} h = elim (Bool-cases (any_row (same_key row) rows)) [
  | inl t ↦ inl (on_conflict_lem row.content rows (ground (arith, t, h)))
  | inr f ↦ inr (ground (arith, f, h))
]

module _ (workspace other : Str) (version new : ℕ) (older : other ≡ workspace → version < new) where
  insert_contents-ShowsSame :
      (contents : List Content) (path : Str) (rows : List ContributionRow)
      {after : List ContributionRow}
      → insert_contents workspace path new contents rows ≡ ok after
      → ShowsSame other version rows after
  unfolding insert_contents
  insert_contents-ShowsSame [] path rows {after} h =
      let same : rows ≡ after = ground (arith, h) in
      subst (ShowsSame other version rows) same (λ p c. (λ s. s, λ s. s))
  insert_contents-ShowsSame (content ∷ contents) path rows {after} h =
      let (middle, first, rest) =
        bind_ok (insert_row (row_at workspace path new content) rows) _ h in
      ShowsSame-trans other version rows middle after
        (elim (insert_row_cases (row_at workspace path new content) rows first) [
          | inl e ↦ subst (ShowsSame other version rows) (sym e) (λ p c. (λ s. s, λ s. s))
          | inr e ↦ subst (ShowsSame other version rows) (sym e) (λ p c.
              Shows-cons other version p c (row_at workspace path new content) rows
                (visible_new workspace other path version new content older))
        ])
        (insert_contents-ShowsSame contents path middle rest)

  close_prior-ShowsSame :
      (path : Str) (rows : List ContributionRow)
      → ShowsSame other version rows (close_prior workspace path new rows)
  unfolding close_contribution_records
  close_prior-ShowsSame path rows =
      if_ind (ShowsSame other version rows) (ltb 1 new)
        (λ t p c.
          Shows-map other version p c (close_row workspace path (new - 1)) rows
            (close-Keeps workspace other path version (new - 1) (λ e. omega (arith, older e))))
        (λ f p c. (λ s. s, λ s. s))

  pub store_contributions-ShowsSame :
      (cs : List Contribution) (rows : List ContributionRow) {after : List ContributionRow}
      → store_contributions workspace new cs rows ≡ ok after
      → ShowsSame other version rows after
  unfolding store_contributions
  store_contributions-ShowsSame [] rows {after} h =
      let same : rows ≡ after = ground (arith, h) in
      subst (ShowsSame other version rows) same (λ p c. (λ s. s, λ s. s))
  store_contributions-ShowsSame (c ∷ cs) rows {after} h =
      let closed = close_prior workspace c.source_path new rows in
      let (middle, first, rest) =
        bind_ok (insert_contents workspace c.source_path new (prepare_contribution c) closed) _ h in
      ShowsSame-trans other version rows closed after (close_prior-ShowsSame c.source_path rows) (
        ShowsSame-trans other version closed middle after
          (insert_contents-ShowsSame (prepare_contribution c) c.source_path closed first)
          (store_contributions-ShowsSame cs middle rest))

module _ (workspace other : Str) (version : ℕ) where
  pub delete_above-ShowsSame :
      (last : ℕ) (rows : List ContributionRow)
      → (other ≡ workspace → version ≤ last)
      → ShowsSame other version rows (
          reopen_contribution_records workspace last
            (delete_where (contribution_above workspace last) rows))
  unfolding reopen_contribution_records is_visible
  delete_above-ShowsSame last rows h =
      ShowsSame-trans other version rows (delete_where (contribution_above workspace last) rows) _
        (λ p c.
          Shows-delete_where other version p c (contribution_above workspace last) rows
            (λ row i t. ground (arith, h, t)))
        (λ p c.
          Shows-map other version p c (reopen_row workspace last) _
            (reopen-Keeps workspace other version last h))

  hidden_below :
      (first : ℕ)
      → (other ≡ workspace → first ≤ version)
      → (old : ContributionRow)
      → contribution_below workspace first (rebase_row workspace first old) ≡ true
      → is_visible other version (rebase_row workspace first old) ≡ false
  unfolding is_visible
  hidden_below first h old t = ground (arith, h, t)

  pub delete_below-ShowsSame :
      (first : ℕ) (rows : List ContributionRow)
      → (other ≡ workspace → first ≤ version)
      → ShowsSame other version rows (
          delete_where
            (contribution_below workspace first)
            (rebase_contributions workspace first rows))
  unfolding rebase_contributions
  delete_below-ShowsSame first rows h =
      ShowsSame-trans other version rows (map (rebase_row workspace first) rows) _
        (λ p c.
          Shows-map other version p c (rebase_row workspace first) rows
            (rebase-Keeps workspace other version first h))
        (λ p c.
          Shows-delete_where other version p c (contribution_below workspace first)
            (map (rebase_row workspace first) rows)
            (λ row i t.
              let (old, j, e) = map-In (rebase_row workspace first) rows i in
              subst
                (λ r.
                  contribution_below workspace first r ≡ true → is_visible other version r ≡ false)
                e (hidden_below first h old) t))
