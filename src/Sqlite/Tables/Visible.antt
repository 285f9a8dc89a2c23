-- ===== src/Sqlite/Tables/Visible.antt =====
-- storage/sqlite/sqlite.go: what a version shows of the contributions, and how updates and deletions change it.
use agent_graph.Prelude.{
  ℕ, Str, List, [], ◌∷◌, map, Bool, true, false, ◌≡◌, sym, ap, subst, arith, In, In-map, map-In,
  ◌↔◌, inl, inr, ◌∙◌, Bool-cases,
}
use agent_graph.Sqlite.Tables.{Content, ContributionRow, is_visible, delete_where}

-- A read of the version finds this content under the path.
pub record Shows (workspace : Str) (version : ℕ) (rows : List ContributionRow) (path : Str)
    (content : Content) : Type 0 where
  pub row : ContributionRow
  pub stored : In row rows
  pub visible : is_visible workspace version row ≡ true
  pub at_path : row.source_path ≡ path
  pub holds : row.content ≡ content

-- The update leaves the path and the content of a row, and whether the version sees it.
pub record Keeps (workspace : Str) (version : ℕ) (f : ContributionRow → ContributionRow)
    : Type 0 where
  pub visible :
      (row : ContributionRow)
      → is_visible workspace version (f row) ≡ is_visible workspace version row
  pub path : (row : ContributionRow) → (f row).source_path ≡ row.source_path
  pub content : (row : ContributionRow) → (f row).content ≡ row.content

pub In-delete_where :
    {A : Type 0} (condition : A → Bool) (a : A) (rows : List A)
    → In a (delete_where condition rows) ↔ (In a rows × (condition a ≡ false))
unfolding delete_where
In-delete_where condition a [] = (λ i. absurd i, λ h. absurd h.0)
In-delete_where condition a (row ∷ rows) = elim (Bool-cases (condition row)) [
  | inl t ↦ (
    λ i. let (j, f) = (In-delete_where condition a rows).0 (gone t i) in (inr j, f),
    λ (i, f). elim i [
      | inl e ↦
          let f' = subst (λ r. condition r ≡ false) (sym e) f in absurd (ground (arith, t, f'))
      | inr j ↦ back t ((In-delete_where condition a rows).1 (j, f))
    ],
  )
  | inr f ↦ (
    λ i. elim (stays f i) [
      | inl e ↦ (inl e, subst (λ r. condition r ≡ false) e f)
      | inr j ↦ let (k, g) = (In-delete_where condition a rows).0 j in (inr k, g)
    ],
    λ (i, g). elim i [
      | inl e ↦ again f (inl e)
      | inr j ↦ again f (inr ((In-delete_where condition a rows).1 (j, g)))
    ],
  )
]
  where
    gone :
        condition row ≡ true
        → In a (delete_where condition (row ∷ rows))
        → In a (delete_where condition rows)
    gone t i = ground (arith, t, i)

    back :
        condition row ≡ true
        → In a (delete_where condition rows)
        → In a (delete_where condition (row ∷ rows))
    back t i = ground (arith, t, i)

    stays :
        condition row ≡ false
        → In a (delete_where condition (row ∷ rows))
        → In a (row ∷ delete_where condition rows)
    stays f i = ground (arith, f, i)

    again :
        condition row ≡ false
        → In a (row ∷ delete_where condition rows)
        → In a (delete_where condition (row ∷ rows))
    again f i = ground (arith, f, i)

module _ (workspace : Str) (version : ℕ) (path : Str) (content : Content) where
  pub Shows-map :
      (f : ContributionRow → ContributionRow) (rows : List ContributionRow)
      → Keeps workspace version f
      → Shows workspace version (map f rows) path content
        ↔ Shows workspace version rows path content
  Shows-map f rows keeps = (
    λ s.
        let (row, i, e) = map-In f rows s.stored in
        record {
          row = row;
          stored = i;
          visible =
              sym (keeps.visible row)
              ∙ subst (λ r. is_visible workspace version r ≡ true) (sym e) s.visible;
          at_path =
              sym (keeps.path row) ∙ ap (λ (r : ContributionRow). r.source_path) e ∙ s.at_path;
          holds = sym (keeps.content row) ∙ ap (λ (r : ContributionRow). r.content) e ∙ s.holds;
        },
    λ s. record {
      row = f s.row;
      stored = In-map f s.row rows s.stored;
      visible = keeps.visible s.row ∙ s.visible;
      at_path = keeps.path s.row ∙ s.at_path;
      holds = keeps.content s.row ∙ s.holds;
    },
  )

  pub Shows-cons :
      (row : ContributionRow) (rows : List ContributionRow)
      → is_visible workspace version row ≡ false
      → Shows workspace version (row ∷ rows) path content
        ↔ Shows workspace version rows path content
  Shows-cons row rows hidden = (
    λ s. elim s.stored [
      | inl e ↦
          let seen = subst (λ r. is_visible workspace version r ≡ true) (sym e) s.visible in
          absurd (ground (arith, seen, hidden))
      | inr i ↦ record {
        row = s.row;
        stored = i;
        visible = s.visible;
        at_path = s.at_path;
        holds = s.holds;
      }
    ],
    λ s. record {
      row = s.row;
      stored = inr s.stored;
      visible = s.visible;
      at_path = s.at_path;
      holds = s.holds;
    },
  )

  -- Rows that the version does not see may go.
  pub Shows-delete_where :
      (condition : ContributionRow → Bool) (rows : List ContributionRow)
      → ((row : ContributionRow)
          → In row rows
          → condition row ≡ true
          → is_visible workspace version row ≡ false)
      → Shows workspace version (delete_where condition rows) path content
        ↔ Shows workspace version rows path content
  Shows-delete_where condition rows hidden = (
    λ s. record {
      row = s.row;
      stored = ((In-delete_where condition s.row rows).0 s.stored).0;
      visible = s.visible;
      at_path = s.at_path;
      holds = s.holds;
    },
    λ s. record {
      row = s.row;
      stored = (In-delete_where condition s.row rows).1 (
        s.stored,
        elim (Bool-cases (condition s.row)) [
          | inl t ↦ let gone = hidden s.row s.stored t in absurd (ground (arith, gone, s.visible))
          | inr f ↦ f
        ],
      );
      visible = s.visible;
      at_path = s.at_path;
      holds = s.holds;
    },
  )
