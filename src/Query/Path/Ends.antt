-- ===== src/Query/Path/Ends.antt =====
-- query/path.go: what a search has found when it ends.
use agent_graph.Prelude.{
  ℕ, zero, suc, Str, List, [], Bool, ◌≡◌, ◌↔◌, sym, ap, arith, ◌⊎◌, inl, inr, In, str_eq, ◌≤◌,
  subst, In-append, In-append_left,
}
use agent_graph.Graph.Types.{Node, Edge}
use agent_graph.Query.Path.{Search}
use agent_graph.Query.Path.Depth.{depth, IsTree, Placed, depth_source}
use agent_graph.Query.Path.Invariant.{Link, Inv}

module _ (nodes : List (Str × Node)) (edges_by_source : List (Str × List Edge)) (undirected : Bool)
    (source : Str) where
  abbrev pub Trail : Str → ℕ → Type 0
  Trail v zero = source ≡ v
  Trail v (suc n) =
      (c : Str) × (e : Edge) × Trail c n × Link nodes edges_by_source undirected source c e v

  -- The tree of the predecessors holds the target, at its least depth, if a trail leads there.
  pub record Ends (target : Str) (s : Search) : Type 0 where
    pub tree : IsTree (Link nodes edges_by_source undirected source) source s.predecessors
    pub seen_placed :
        (v : Str)
        → In v s.seen
          ↔ Placed (Link nodes edges_by_source undirected source) source s.predecessors v
    pub best : (n : ℕ) → Trail target n → In target s.seen × (depth s.predecessors target ≤ n)

  module _ (k : ℕ) (done front back : List Str) (s : Search)
      (inv : Inv nodes edges_by_source undirected source k done front back [] s) where
    -- A trail either stays in what was seen, or passes the frontier.
    pub passes :
        (v : Str) (n : ℕ)
        → Trail v n
        → (In v s.seen × (depth s.predecessors v ≤ n))
          ⊎ ((w : Str) × In w s.frontier × (depth s.predecessors w ≤ n))
    passes v zero t = inl (
      (inv.seen_placed v).1 (inl (sym t)),
      omega (
        arith,
        ap (depth s.predecessors) t,
        depth_source (Link nodes edges_by_source undirected source) source s.predecessors inv.tree,
      ),
    )
    passes v (suc n) (c, e, t, link) = elim (passes c n t) [
      | inr (w, i, b) ↦ inr (w, i, omega (arith, b))
      | inl (i, b) ↦ elim ((inv.seen_done c).0 i) [
        | inr f ↦ inr (c, f, omega (arith, b))
        | inl d ↦ elim (inv.closed c e v d link) [
          | inl none_left ↦ absurd none_left
          | inr (j, b') ↦ inl (j, omega (arith, b, b'))
        ]
      ]
    ]

    pub exhausted : s.frontier ≡ [] → (target : Str) → Ends target s
    exhausted e target = record {
      tree = inv.tree;
      seen_placed = inv.seen_placed;
      best =
          λ n t. elim (passes target n t) [ inl r ↦ r | inr (w, i, b) ↦ absurd (subst (In w) e i) ];
    }

    pub arrived : (target : Str) → In target front → Ends target s
    arrived target i =
        let seen : In target s.seen =
          (inv.seen_done target).1
            (inr (subst (In target) (sym inv.split) (In-append_left target front back i))) in
        record {
          tree = inv.tree;
          seen_placed = inv.seen_placed;
          best = λ n t. (
            seen,
            elim (passes target n t) [
              | inl r ↦ r.1
              | inr (w, j, b) ↦ elim (In-append w front back (subst (In w) inv.split j)) [
                | inl f ↦ omega (arith, inv.near target i, inv.near w f, b)
                | inr g ↦ omega (arith, inv.near target i, inv.far w g, b)
              ]
            ],
          );
        }
