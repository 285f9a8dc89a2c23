-- ===== src/Sqlite/Publication/Stored.antt =====
-- storage/sqlite/sqlite.go: what a new version shows of the contributions, once they are stored.
use agent_graph.Prelude.{
  ℕ, ◌-◌, Str, List, [], ◌∷◌, map, none, ◌≡◌, ◌≢◌, refl, sym, ap, arith, In, map-In, str_eq, nat_eq,
  ltb, ok, bind_ok, ◌↔◌, ◌⊎◌, inl, inr, subst, if_ind, ◌∙◌, Distinct,
}
use agent_graph.Extractor.Types.{Contribution}
use agent_graph.Sqlite.Tables.{Content, ContributionRow, texts_eq, prepare_contribution}
use agent_graph.Sqlite.Tables.Visible.{Shows}
use agent_graph.Sqlite.Versions.{
  insert_row, row_at, insert_contents, close_row, close_contribution_records, close_prior,
  store_contributions,
}
use agent_graph.Sqlite.Publication.Isolation.{insert_row_cases}
use agent_graph.Sqlite.Publication.Inserted.{first_keys, Taken, insert_contents_lem}
use agent_graph.Sqlite.Publication.Closed.{
  ArePast, free-Taken, still_free, closed_same, closed_path, Shows-close_prior,
}

abbrev pub paths_of : List Contribution → List Str
paths_of cs = map (λ (c : Contribution). c.source_path) cs

module _ (workspace : Str) (new : ℕ) where
  -- The rows behind the insertions are those before, and rows of the path that begin with the version.
  pub insert_contents_rows :
      (contents : List Content) (path : Str) (rows : List ContributionRow)
      {after : List ContributionRow}
      → insert_contents workspace path new contents rows ≡ ok after
      → (row : ContributionRow) → In row after
      → In row rows
        ⊎ ((row.source_path ≡ path)
            × (row.workspace ≡ workspace)
            × (row.valid_from ≡ new)
            × (row.valid_to ≡ none))
  unfolding insert_contents
  insert_contents_rows [] path rows {after} h row i =
      let same : after ≡ rows = ground (arith, h) in inl (subst (In row) same i)
  insert_contents_rows (content ∷ contents) path rows {after} h row i =
      let added = row_at workspace path new content in
      let (middle, first, rest) = bind_ok (insert_row added rows) _ h in
      elim (insert_contents_rows contents path middle rest row i) [
        | inr n ↦ inr n
        | inl j ↦ elim (insert_row_cases added rows first) [
          | inl e ↦ inl (subst (In row) e j)
          | inr e ↦ elim (subst (In row) e j) [
            | inl q ↦ inr (
              sym (ap (λ (r : ContributionRow). r.source_path) q),
              sym (ap (λ (r : ContributionRow). r.workspace) q),
              sym (ap (λ (r : ContributionRow). r.valid_from) q),
              sym (ap (λ (r : ContributionRow). r.valid_to) q),
            )
            | inr k ↦ inl k
          ]
        ]
      ]

  -- Closing the rows of one path leaves those of the others.
  pub close_prior_rows :
      (path : Str) (rows : List ContributionRow) (row : ContributionRow)
      → In row (close_prior workspace path new rows)
      → row.source_path ≢ path
      → In row rows
  unfolding close_contribution_records
  close_prior_rows path rows row =
      if_ind (λ r. In row r → row.source_path ≢ path → In row rows) (ltb 1 new)
        (λ t i n.
          let (old, j, e) = map-In (close_row workspace path (new - 1)) rows i in
          let other : old.source_path ≢ path = λ q. n (
            ap (λ (r : ContributionRow). r.source_path) (sym e)
            ∙ closed_path workspace new path (new - 1) old
            ∙ q) in
          subst (λ r. In r rows) (sym (closed_same workspace new path (new - 1) old other) ∙ e) j)
        (λ f i n. i)

  past_next :
      (path : Str) (paths : List Str) (contents : List Content) (rows : List ContributionRow)
      {middle : List ContributionRow}
      → ¬ In path paths
      → ArePast workspace new (path ∷ paths) rows
      → insert_contents workspace path new contents (close_prior workspace path new rows)
        ≡ ok middle
      → ArePast workspace new paths middle
  past_next path paths contents rows fresh past h row i w j =
      let other : row.source_path ≢ path = λ e. fresh (subst (λ x. In x paths) e j) in
      elim (insert_contents_rows contents path (close_prior workspace path new rows) h row i) [
        | inr new_row ↦ absurd (other new_row.0)
        | inl k ↦ past row (close_prior_rows path rows row k other) w (inr j)
      ]

  past_closed :
      (path : Str) (rows : List ContributionRow)
      → ArePast workspace new (path ∷ []) rows
      → Taken workspace path new (close_prior workspace path new rows) []
  unfolding close_contribution_records
  past_closed path rows past =
      if_ind (λ r. Taken workspace path new r []) (ltb 1 new)
        (λ t. still_free workspace new path rows past)
        (λ f. free-Taken workspace new path rows past)

  -- A contribution of the update has the content, or no contribution has the path and the content was there before.
  abbrev pub Written : List Contribution → List ContributionRow → Str → Content → Type 0
  Written cs rows p content =
      ((c : Contribution) × In c cs
        × (c.source_path ≡ p)
        × In content (first_keys [] (prepare_contribution c)))
      ⊎ ((¬ In p (paths_of cs)) × Shows workspace new rows p content)

  pub store_contributions-Written :
      (cs : List Contribution) (rows : List ContributionRow) {after : List ContributionRow}
      → Distinct (paths_of cs)
      → ArePast workspace new (paths_of cs) rows
      → store_contributions workspace new cs rows ≡ ok after
      → (p : Str) (content : Content)
      → Shows workspace new after p content ↔ Written cs rows p content
  unfolding store_contributions
  store_contributions-Written [] rows {after} distinct past h p content =
      let same : rows ≡ after = ground (arith, h) in
      subst (λ r. Shows workspace new r p content ↔ Written [] rows p content) same
        (λ s. inr (λ i. i, s), λ w. elim w [ inl (c, i, _, _) ↦ absurd i | inr (_, s) ↦ s ])
  store_contributions-Written (c ∷ cs) rows {after} distinct past h p content =
      let path = c.source_path in
      let closed = close_prior workspace path new rows in
      let (middle, first, rest) =
        bind_ok (insert_contents workspace path new (prepare_contribution c) closed) _ h in
      let own : ArePast workspace new (path ∷ []) rows =
        λ row i w j. past row i w (elim j [ inl e ↦ inl e | inr k ↦ absurd k ]) in
      let next = past_next path (paths_of cs) (prepare_contribution c) rows distinct.0 past first in
      let others = store_contributions-Written cs middle distinct.1 next rest p content in
      let added =
        insert_contents_lem workspace path new (prepare_contribution c) closed []
          (past_closed path rows own) first p content in
      let before = Shows-close_prior workspace new path rows p content own in
      (
        λ s. elim (others.0 s) [
          | inl (d, i, e, k) ↦ inl (d, inr i, e, k)
          | inr (n, s') ↦ elim (added.0 s') [
            | inl (e, k) ↦ inl (c, inl refl, e, k)
            | inr s'' ↦
                let (q, old) = before.0 s'' in inr (λ j. elim j [ inl e ↦ q e | inr k ↦ n k ], old)
          ]
        ],
        λ w. elim w [
          | inl (d, inl same, e, k) ↦
              let e' : path ≡ p = ap (λ (x : Contribution). x.source_path) same ∙ e in
              let k' =
                subst (λ x. In content (first_keys [] (prepare_contribution x))) (sym same) k in
              others.1 (
                inr (
                  λ j. distinct.0 (subst (λ x. In x (paths_of cs)) (sym e') j),
                  added.1 (inl (e', k')),
                ))
          | inl (d, inr i, e, k) ↦ others.1 (inl (d, i, e, k))
          | inr (n, s) ↦
              others.1 (inr (λ j. n (inr j), added.1 (inr (before.1 (λ q. n (inl q), s)))))
        ],
      )
