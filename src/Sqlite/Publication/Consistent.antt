-- ===== src/Sqlite/Publication/Consistent.antt =====
-- storage/sqlite/sqlite.go: the versions between which a row holds, and the greatest version of its workspace.
use agent_graph.Prelude.{
  ℕ, ◌-◌, ◌≤◌, ◌<◌, Str, List, [], ◌∷◌, false, some, ◌≡◌, ◌≢◌, ap, arith, In, map-In, Str-discrete,
  ◌==◌, str_eq, nat_eq, ltb, ◌&&◌, ◌||◌, not, is_some, ok, bind_ok, inl, inr, subst, if_ind, ◌∙◌,
}
use agent_graph.Extractor.Types.{Contribution}
use agent_graph.Sqlite.Tables.{ContributionRow, delete_where, prepare_contribution}
use agent_graph.Sqlite.Tables.Visible.{In-delete_where}
use agent_graph.Sqlite.Versions.{
  close_row, ends_from, reopen_row, rebase_row, close_contribution_records,
  reopen_contribution_records, rebase_contributions, close_prior, insert_contents,
  store_contributions,
}
use agent_graph.Sqlite.Publication.{contribution_below, contribution_above}
use agent_graph.Sqlite.Publication.Stored.{insert_contents_rows}

-- A row begins with a version that is there, and ends before the last one if it has ended.
abbrev pub IsWithin : ℕ → ContributionRow → Type 0
IsWithin limit row =
    (1 ≤ row.valid_from)
    × (row.valid_from ≤ limit)
    × ((last : ℕ) → row.valid_to ≡ some last → last < limit)

abbrev pub AreWithin : (Str → ℕ) → List ContributionRow → Type 0
AreWithin limit rows = (row : ContributionRow) → In row rows → IsWithin (limit row.workspace) row

IsWithin-close :
    (limit : Str → ℕ) (workspace path : Str) (new : ℕ) (row : ContributionRow)
    → limit workspace ≡ new
    → 1 ≤ new
    → IsWithin (limit row.workspace) row
    → IsWithin
        (limit (close_row workspace path (new - 1) row).workspace)
        (close_row workspace path (new - 1) row)
IsWithin-close limit workspace path new row e h (a, b, c) =
    if_ind (λ r. IsWithin (limit r.workspace) r)
      (row.workspace == workspace && row.source_path == path && not (is_some row.valid_to))
      (λ t.
        let w : row.workspace ≡ workspace = ground (arith, t) in
        let l : limit row.workspace ≡ new = ap limit w ∙ e in
        (a, b, λ last q. ground (arith, l, h, q)))
      (λ f. (a, b, c))

IsWithin-rebase :
    (limit : Str → ℕ) (workspace : Str) (first : ℕ) (row : ContributionRow)
    → first ≤ limit workspace
    → IsWithin (limit row.workspace) row
    → IsWithin (limit (rebase_row workspace first row).workspace) (rebase_row workspace first row)
IsWithin-rebase limit workspace first row h (a, b, c) =
    if_ind (λ r. IsWithin (limit r.workspace) r)
      (row.workspace == workspace
        && ltb row.valid_from first
        && (not (is_some row.valid_to) || ends_from first row.valid_to))
      (λ t.
        let w : row.workspace ≡ workspace = ground (arith, t) in
        let l : limit row.workspace ≡ limit workspace = ap limit w in
        (ground (arith, t, a), omega (arith, l, h), c))
      (λ f. (a, b, c))

-- Going back, the rows that began later are gone.
IsWithin-reopen :
    (limit later : Str → ℕ) (workspace : Str) (last : ℕ) (row : ContributionRow)
    → later workspace ≡ last
    → ((w : Str) → w ≢ workspace → later w ≡ limit w)
    → contribution_above workspace last row ≡ false
    → IsWithin (limit row.workspace) row
    → IsWithin (later (reopen_row workspace last row).workspace) (reopen_row workspace last row)
IsWithin-reopen limit later workspace last row e same kept (a, b, c) =
    if_ind (λ r. IsWithin (later r.workspace) r)
      (row.workspace == workspace && ends_from last row.valid_to)
      (λ t.
        let w : row.workspace ≡ workspace = ground (arith, t) in
        let l : later row.workspace ≡ last = ap later w ∙ e in
        (a, ground (arith, l, w, kept), λ end q. absurd (ground (arith, q))))
      (λ f. elim (Str-discrete row.workspace workspace) [
        | yes w ↦
            let l : later row.workspace ≡ last = ap later w ∙ e in
            (a, ground (arith, l, w, kept), λ end q. ground (arith, l, w, f, q))
        | no n ↦
            let l = same row.workspace n in
            (a, omega (arith, l, b), λ end q. omega (arith, l, c end q))
      ])

pub store_contributions-AreWithin :
    (limit : Str → ℕ) (workspace : Str) (new : ℕ) (cs : List Contribution)
    (rows : List ContributionRow) {after : List ContributionRow}
    → limit workspace ≡ new
    → 1 ≤ new
    → AreWithin limit rows
    → store_contributions workspace new cs rows ≡ ok after
    → AreWithin limit after
unfolding store_contributions close_contribution_records
store_contributions-AreWithin limit workspace new [] rows {after} e h within p =
    let same : rows ≡ after = ground (arith, p) in subst (AreWithin limit) same within
store_contributions-AreWithin limit workspace new (c ∷ cs) rows {after} e h within p =
    let closed = close_prior workspace c.source_path new rows in
    let (middle, first, rest) =
      bind_ok (insert_contents workspace c.source_path new (prepare_contribution c) closed) _ p in
    store_contributions-AreWithin limit workspace new cs middle e h
      (λ row i.
        elim (insert_contents_rows workspace new (prepare_contribution c) c.source_path closed first
          row i) [
            | inl j ↦ close_prior-AreWithin c.source_path row j
            | inr (_, w, from, to) ↦
                let l : limit row.workspace ≡ new = ap limit w ∙ e in
                (omega arith, omega arith, λ last q. absurd (ground (arith, to, q)))
          ])
      rest
  where
    close_prior-AreWithin : (path : Str) → AreWithin limit (close_prior workspace path new rows)
    close_prior-AreWithin path =
        if_ind (AreWithin limit) (ltb 1 new)
          (λ t row i.
            let (old, j, q) = map-In (close_row workspace path (new - 1)) rows i in
            subst (λ r. IsWithin (limit r.workspace) r) q
              (IsWithin-close limit workspace path new old e h (within old j)))
          (λ f. within)

pub rebased-AreWithin :
    (limit : Str → ℕ) (workspace : Str) (first : ℕ) (rows : List ContributionRow)
    → first ≤ limit workspace
    → AreWithin limit rows
    → AreWithin limit (
        delete_where
          (contribution_below workspace first)
          (rebase_contributions workspace first rows))
unfolding rebase_contributions
rebased-AreWithin limit workspace first rows h within row i =
    let (j, _) = (In-delete_where (contribution_below workspace first) row _).0 i in
    let (old, k, q) = map-In (rebase_row workspace first) rows j in
    subst (λ r. IsWithin (limit r.workspace) r) q
      (IsWithin-rebase limit workspace first old h (within old k))

pub reopened-AreWithin :
    (limit later : Str → ℕ) (workspace : Str) (last : ℕ) (rows : List ContributionRow)
    → later workspace ≡ last
    → ((w : Str) → w ≢ workspace → later w ≡ limit w)
    → AreWithin limit rows
    → AreWithin later (
        reopen_contribution_records workspace last
          (delete_where (contribution_above workspace last) rows))
unfolding reopen_contribution_records
reopened-AreWithin limit later workspace last rows e same within row i =
    let (old, j, q) = map-In (reopen_row workspace last) _ i in
    let (k, kept) = (In-delete_where (contribution_above workspace last) old rows).0 j in
    subst (λ r. IsWithin (later r.workspace) r) q
      (IsWithin-reopen limit later workspace last old e same kept (within old k))
