-- ===== src/Sqlite/Publication/Inserted.antt =====
-- storage/sqlite/sqlite.go: the rows that the insertions of a contribution add.
use agent_graph.Prelude.{
  ℕ, Str, List, [], ◌∷◌, true, false, ◌≡◌, refl, sym, ap, arith, In, mem, str_eq, nat_eq, ok,
  bind_ok, ◌↔◌, ◌⊎◌, inl, inr, subst, Bool-cases, if◌then◌else◌, ◌∙◌,
}
use agent_graph.Sqlite.Tables.{Content, ContributionRow, is_visible, texts_eq, content_key}
use agent_graph.Sqlite.Tables.Visible.{Shows}
use agent_graph.Sqlite.Versions.{any_row, same_key, insert_row, row_at, insert_contents}
use agent_graph.Sqlite.Publication.Isolation.{on_conflict_lem}

-- The contents whose key comes for the first time.
abbrev pub first_keys : List (List Str) → List Content → List Content
first_keys seen [] = []
first_keys seen (content ∷ contents) =
    let later = first_keys (content_key content ∷ seen) contents in
    let other = first_keys seen contents in
    if mem (content_key content) seen then other else content ∷ later

first_keys_old :
    (content : Content) (contents : List Content) (seen : List (List Str))
    → mem (content_key content) seen ≡ true
    → first_keys seen contents ≡ first_keys seen (content ∷ contents)
first_keys_old content contents seen t = ground (arith, t)

first_keys_new :
    (content : Content) (contents : List Content) (seen : List (List Str))
    → mem (content_key content) seen ≡ false
    → content ∷ first_keys (content_key content ∷ seen) contents
      ≡ first_keys seen (content ∷ contents)
first_keys_new content contents seen f = ground (arith, f)

module _ (workspace path : Str) (new : ℕ) where
  -- The keys of the path's rows of the new version.
  abbrev pub Taken : List ContributionRow → List (List Str) → Type 0
  Taken rows seen =
      (content : Content)
      → any_row (same_key (row_at workspace path new content)) rows ≡ mem (content_key content) seen

  Taken-cons :
      (content : Content) (rows : List ContributionRow) (seen : List (List Str))
      → Taken rows seen
      → Taken (row_at workspace path new content ∷ rows) (content_key content ∷ seen)
  Taken-cons content rows seen taken other = ground (arith, taken other)

  insert_fresh :
      (content : Content) (rows : List ContributionRow) (seen : List (List Str))
      {after : List ContributionRow}
      → Taken rows seen
      → mem (content_key content) seen ≡ false
      → insert_row (row_at workspace path new content) rows ≡ ok after
      → row_at workspace path new content ∷ rows ≡ after
  unfolding insert_row
  insert_fresh content rows seen taken f h =
      let free : any_row (same_key (row_at workspace path new content)) rows ≡ false =
        ground (arith, taken content, f) in
      ground (arith, free, h)

  insert-Taken :
      (content : Content) (rows : List ContributionRow) (seen : List (List Str))
      {after : List ContributionRow}
      → Taken rows seen
      → mem (content_key content) seen ≡ true
      → insert_row (row_at workspace path new content) rows ≡ ok after
      → after ≡ rows
  unfolding insert_row
  insert-Taken content rows seen taken t h =
      let full : any_row (same_key (row_at workspace path new content)) rows ≡ true =
        ground (arith, taken content, t) in
      on_conflict_lem content rows (ground (arith, full, h))

  -- What the version shows of a row in front of others.
  Shows-row_at :
      (content other : Content) (rows : List ContributionRow) (p : Str)
      → Shows workspace new (row_at workspace path new content ∷ rows) p other
        ↔ (((path ≡ p) × (content ≡ other)) ⊎ Shows workspace new rows p other)
  unfolding is_visible
  Shows-row_at content other rows p = (
    λ s. elim s.stored [
      | inl e ↦ inl (
        ap (λ (r : ContributionRow). r.source_path) e ∙ s.at_path,
        ap (λ (r : ContributionRow). r.content) e ∙ s.holds,
      )
      | inr i ↦ inr (record {
        row = s.row;
        stored = i;
        visible = s.visible;
        at_path = s.at_path;
        holds = s.holds;
      })
    ],
    λ h. elim h [
      | inl (e, c) ↦ record {
        row = row_at workspace path new content;
        stored = inl refl;
        visible = ground arith;
        at_path = e;
        holds = c;
      }
      | inr s ↦ record {
        row = s.row;
        stored = inr s.stored;
        visible = s.visible;
        at_path = s.at_path;
        holds = s.holds;
      }
    ],
  )

  -- The version shows the contents with new keys besides what it showed.
  pub insert_contents_lem :
      (contents : List Content) (rows : List ContributionRow) (seen : List (List Str))
      {after : List ContributionRow}
      → Taken rows seen
      → insert_contents workspace path new contents rows ≡ ok after
      → (p : Str) (c : Content)
      → Shows workspace new after p c
        ↔ (((path ≡ p) × In c (first_keys seen contents)) ⊎ Shows workspace new rows p c)
  unfolding insert_contents
  insert_contents_lem [] rows seen {after} taken h p c =
      let same : rows ≡ after = ground (arith, h) in
      subst (λ r. Shows workspace new r p c ↔ (((path ≡ p) × ⊥) ⊎ Shows workspace new rows p c))
        same (λ s. inr s, λ d. elim d [ inl (e, i) ↦ absurd i | inr s ↦ s ])
  insert_contents_lem (content ∷ contents) rows seen {after} taken h p c =
      let (middle, first, rest) =
        bind_ok (insert_row (row_at workspace path new content) rows) _ h in
      elim (Bool-cases (mem (content_key content) seen)) [
        | inl t ↦
            let e = insert-Taken content rows seen taken t first in
            let rest' =
              subst (λ r. insert_contents workspace path new contents r ≡ ok after) e rest in
            subst
              (λ l.
                Shows workspace new after p c
                ↔ (((path ≡ p) × In c l) ⊎ Shows workspace new rows p c))
              (first_keys_old content contents seen t)
              (insert_contents_lem contents rows seen taken rest' p c)
        | inr f ↦
            let e = insert_fresh content rows seen taken f first in
            let rest' =
              subst (λ r. insert_contents workspace path new contents r ≡ ok after) (sym e) rest in
            let whole =
              insert_contents_lem contents (row_at workspace path new content ∷ rows)
                (content_key content ∷ seen) (Taken-cons content rows seen taken) rest' p c in
            let front = Shows-row_at content c rows p in
            subst
              (λ l.
                Shows workspace new after p c
                ↔ (((path ≡ p) × In c l) ⊎ Shows workspace new rows p c))
              (first_keys_new content contents seen f)
              (
                λ s. elim (whole.0 s) [
                  | inl (e, i) ↦ inl (e, inr i)
                  | inr s' ↦ elim (front.0 s') [ inl (e, q) ↦ inl (e, inl q) | inr s'' ↦ inr s'' ]
                ],
                λ d. elim d [
                  | inl (e, inl q) ↦ whole.1 (inr (front.1 (inl (e, q))))
                  | inl (e, inr i) ↦ whole.1 (inl (e, i))
                  | inr s ↦ whole.1 (inr (front.1 (inr s)))
                ],
              )
      ]
