-- ===== src/Sqlite/Publication/Holding.antt =====
-- storage/sqlite/sqlite.go: the facts of the workspace that a version holds.
use agent_graph.Prelude.{
  ℕ, ◌-◌, ◌≤◌, ◌<◌, Str, List, [], ◌∷◌, ◌++◌, map, true, ◌≡◌, arith, In, ◌==◌, str_eq, nat_eq, leb,
  ◌&&◌, ◌↔◌, inl, inr, sym, ap, if_ind, In-append, In-append_right, is_empty, ◌||◌,
}
use agent_graph.Graph.Types.{Facts}
use agent_graph.Sqlite.Tables.{WorkspaceFact, workspace_node, WorkspaceRow, delete_where, fact_key}
use agent_graph.Sqlite.Tables.Visible.{In-delete_where}
use agent_graph.Sqlite.Publication.{
  any_fact, owned_edge, insert_facts, store_workspace_facts, kept_edge, copied_rows,
  retain_workspace_facts, fact_below, fact_above,
}

abbrev fact_row : Str → ℕ → WorkspaceFact → WorkspaceRow
fact_row workspace version fact = record { workspace = workspace; version = version; fact = fact }

-- A version of a workspace holds the same facts in both tables.
abbrev pub HoldsSame : Str → ℕ → List WorkspaceRow → List WorkspaceRow → Type 0
HoldsSame workspace version before after =
    (fact : WorkspaceFact)
    → In (fact_row workspace version fact) after ↔ In (fact_row workspace version fact) before

module _ (workspace other : Str) (version new : ℕ) (older : other ≡ workspace → version < new) where
  not_new :
      (fact new_fact : WorkspaceFact)
      → ¬ (fact_row workspace new new_fact ≡ fact_row other version fact)
  not_new fact new_fact e = omega (
    arith,
    older (sym (ap (λ (r : WorkspaceRow). r.workspace) e)),
    ap (λ (r : WorkspaceRow). r.version) e,
  )

  insert_facts-HoldsSame :
      (facts : List WorkspaceFact) (rows : List WorkspaceRow)
      → HoldsSame other version rows (insert_facts workspace new facts rows)
  unfolding insert_facts
  insert_facts-HoldsSame [] rows fact = (λ i. i, λ i. i)
  insert_facts-HoldsSame (f ∷ facts) rows fact =
      if_ind
        (λ r.
          In (fact_row other version fact) (insert_facts workspace new facts r)
          ↔ In (fact_row other version fact) rows)
        (any_fact workspace new (fact_key f) rows) (λ t. insert_facts-HoldsSame facts rows fact)
        (λ g. (
          λ i. elim ((insert_facts-HoldsSame facts _ fact).0 i) [
            | inl e ↦ absurd (not_new fact f e)
            | inr j ↦ j
          ],
          λ i. (insert_facts-HoldsSame facts _ fact).1 (inr i),
        ))

  copied_rows-not :
      (owners : List Str) (rows : List WorkspaceRow) (fact : WorkspaceFact)
      → ¬ In (fact_row other version fact) (copied_rows workspace new owners rows)
  unfolding copied_rows
  copied_rows-not owners [] fact = λ i. i
  copied_rows-not owners (row ∷ rows) fact =
      if_ind (λ r. ¬ In (fact_row other version fact) r)
        (row.workspace == workspace && row.version == new - 1 && kept_edge owners row.fact)
        (λ t i. elim i [ inl e ↦ not_copied t e | inr j ↦ copied_rows-not owners rows fact j ])
        (λ f. copied_rows-not owners rows fact)
    where
      not_copied :
          row.workspace == workspace && row.version == new - 1 && kept_edge owners row.fact ≡ true
          → ¬ (fact_row row.workspace new row.fact ≡ fact_row other version fact)
      not_copied t e = ground (
        arith,
        t,
        older,
        ap (λ (r : WorkspaceRow). r.workspace) e,
        ap (λ (r : WorkspaceRow). r.version) e,
      )

  retain_workspace_facts-HoldsSame :
      (owners : List Str) (rows : List WorkspaceRow)
      → HoldsSame other version rows (retain_workspace_facts workspace new owners rows)
  unfolding retain_workspace_facts
  retain_workspace_facts-HoldsSame owners rows fact =
      if_ind (λ r. In (fact_row other version fact) r ↔ In (fact_row other version fact) rows)
        (is_empty owners || leb new 1) (λ t. (λ i. i, λ i. i))
        (λ f. (
          λ i. elim (In-append _ (copied_rows workspace new owners rows) rows i) [
            | inl j ↦ absurd (copied_rows-not owners rows fact j)
            | inr j ↦ j
          ],
          In-append_right _ (copied_rows workspace new owners rows) rows,
        ))

  -- What a publication writes belongs to its own version.
  pub stored_facts-HoldsSame :
      (facts : Facts) (owners : List Str) (rows : List WorkspaceRow)
      → HoldsSame other version rows (
          store_workspace_facts workspace new facts
            (retain_workspace_facts workspace new owners rows))
  unfolding store_workspace_facts
  stored_facts-HoldsSame facts owners rows fact =
      let stored =
        insert_facts-HoldsSame (map workspace_node facts.nodes ++ map owned_edge facts.edges)
          (retain_workspace_facts workspace new owners rows) fact in
      let kept = retain_workspace_facts-HoldsSame owners rows fact in
      (λ i. kept.0 (stored.0 i), λ i. stored.1 (kept.1 i))

pub fact_below-HoldsSame :
    (workspace other : Str) (version first : ℕ) (rows : List WorkspaceRow)
    → (other ≡ workspace → first ≤ version)
    → HoldsSame other version rows (delete_where (fact_below workspace first) rows)
fact_below-HoldsSame workspace other version first rows h fact = (
  λ i. ((In-delete_where (fact_below workspace first) _ rows).0 i).0,
  λ i. (In-delete_where (fact_below workspace first) _ rows).1 (i, ground (arith, h)),
)

pub fact_above-HoldsSame :
    (workspace other : Str) (version last : ℕ) (rows : List WorkspaceRow)
    → (other ≡ workspace → version ≤ last)
    → HoldsSame other version rows (delete_where (fact_above workspace last) rows)
fact_above-HoldsSame workspace other version last rows h fact = (
  λ i. ((In-delete_where (fact_above workspace last) _ rows).0 i).0,
  λ i. (In-delete_where (fact_above workspace last) _ rows).1 (i, ground (arith, h)),
)
