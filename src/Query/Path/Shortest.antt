-- ===== src/Query/Path/Shortest.antt =====
-- query/path.go: shortestPath ends, and finds a shortest path if there is a path.
use agent_graph.Prelude.{
  ℕ, zero, suc, Str, List, [], ◌∷◌, Option, none, some, Bool, true, ◌≡◌, refl, arith, ◌⊎◌, inl, inr,
  In, str_eq, lookup, length, map, ◌≤◌, subst, is_some, mem, Option-cases, mem→In, not-mem→not-In,
  not, if_ind,
}
use agent_graph.Graph.Types.{Edge, Facts}
use agent_graph.Query.Path.{
  Search, PathResult, no_path, walk_back, node_at, search_from, start_search, shortest_path,
  collect_path,
}
use agent_graph.Query.Path.Spec.{IsKnown, Walk, IsPath}
use agent_graph.Query.Path.NodeIndex.{index_nodes_known, length-index_nodes}
use agent_graph.Query.Path.Depth.{depth, depth_bound}
use agent_graph.Query.Path.Rounds.{search-Ends}
use agent_graph.Query.Path.Ends.{Trail, Ends}
use agent_graph.Query.Path.Back.{
  nodes, edges_by_source, links_iff, Traces, walk_back-Traces, length-reverse,
}
use mathlib.Core.List.{reverse}

-- Either there is no walk, and the result is empty; or the result is a path, and no walk is shorter.
abbrev pub IsShortest : Facts → Bool → Str → Str → PathResult → Type 0
IsShortest facts undirected a b result =
    (result ≡ record no_path { nodes = result.nodes; edges = result.edges })
    × (((result ≡ no_path) × ((n : ℕ) → IsKnown facts a → ¬ Walk facts undirected a b n))
        ⊎ (IsPath facts undirected a b result.nodes result.edges
            × ((n : ℕ) → Walk facts undirected a b n → length result.edges ≤ n)))

module _ (facts : Facts) (undirected : Bool) (source : Str) where
  abbrev Finds : Str → Option PathResult → Type 0
  Finds target none = ⊥
  Finds target (some result) = IsShortest facts undirected source target result

  Walk-Trail :
      (n : ℕ) (v : Str)
      → Walk facts undirected source v n
      → Trail
          (nodes facts undirected source)
          (edges_by_source facts undirected source)
          undirected
          source
          v
          n
  Walk-Trail zero v w = w
  Walk-Trail (suc n) v (c, e, w, i, j, k) =
      (c, e, Walk-Trail n c w, (links_iff facts undirected source c e v).1 (i, j, k))

  -- A walk from a known node ends at a known node.
  Walk-IsKnown :
      (n : ℕ) (v : Str) → IsKnown facts source → Walk facts undirected source v n → IsKnown facts v
  Walk-IsKnown zero v k w = subst (IsKnown facts) w k
  Walk-IsKnown (suc n) v k (c, e, w, i, j, k') = k'

  module _ (target : Str) (s : Search)
      (ends : Ends
        (nodes facts undirected source)
        (edges_by_source facts undirected source)
        undirected
        source
        target
        s)
      (known : is_some (lookup source (nodes facts undirected source)) ≡ true) where
    best :
        (n : ℕ)
        → Walk facts undirected source target n
        → In target s.seen × (depth s.predecessors target ≤ n)
    best n w = ends.best n (Walk-Trail n target w)

    collected :
        (r : Option (List Str × List Edge))
        → Traces facts undirected source s.predecessors ends.tree known target r
        → Finds target (elim r [
          | none ↦ none
          | some (ids, edges) ↦ some (record no_path {
            nodes = reverse (map (node_at (nodes facts undirected source)) (target ∷ ids));
            edges = reverse edges;
          })
        ])
    collected none t = absurd t
    collected (some (ids, edges)) (path, deep) =
        (refl, inr (path, λ n w. omega (arith, length-reverse edges, deep, (best n w).1)))

    collect_path-Finds : Finds target (collect_path (nodes facts undirected source) source target s)
    collect_path-Finds =
        if_ind (Finds target) (mem target s.seen)
          (λ seen.
            collected (walk_back (suc (length s.predecessors)) source s.predecessors target) (
              walk_back-Traces facts undirected source s.predecessors ends.tree known
                (suc (length s.predecessors)) target
                ((ends.seen_placed target).0 (mem→In target s.seen seen))
                (omega (arith, depth_bound s.predecessors target))))
          (λ unseen. (refl, inl (refl, λ n k w. not-mem→not-In target s.seen unseen (best n w).0)))

  shortest_path-Finds : (target : Str) → Finds target (shortest_path facts source target undirected)
  unfolding shortest_path
  shortest_path-Finds target =
      if_ind (Finds target) (not (is_some (lookup source (nodes facts undirected source))))
        (λ missing.
          (refl, inl (refl, λ n k w. cc (missing, (index_nodes_known facts.nodes source).1 k))))
        (λ known.
          if_ind (Finds target) (not (is_some (lookup target (nodes facts undirected source))))
            (λ missing. (
              refl,
              inl (
                refl,
                λ n k w.
                    cc (
                      missing,
                      (index_nodes_known facts.nodes target).1 (Walk-IsKnown n target k w),
                    ),
              ),
            ))
            (λ _.
              collect_path-Finds target
                (search_from (nodes facts undirected source)
                  (edges_by_source facts undirected source) undirected
                  (suc (suc (length facts.nodes))) target (start_search source))
                (search-Ends (nodes facts undirected source)
                  (edges_by_source facts undirected source) undirected source (length facts.nodes)
                  target (omega (arith, length-index_nodes [] facts.nodes)))
                (ground (arith, known))))

-- `shortestPath` ends, and sets no field of its result but the nodes and the edges. It is empty, and no walk over edges of the facts and known nodes leads from the
-- source, if that is known, to the target; or it is a path of the facts from the source to the target,
-- nodes and edges alternating, with no more edges than any such walk. If direction does not count, edges
-- may be walked either way.
pub shortest_path_lem :
    (facts : Facts) (source target : Str) (undirected : Bool)
    → (result : PathResult) × (shortest_path facts source target undirected ≡ some result)
      × IsShortest facts undirected source target result
shortest_path_lem facts source target undirected =
    elim (Option-cases (shortest_path facts source target undirected)) [
      | inl stuck ↦ absurd (
          subst (Finds facts undirected source target) stuck
            (shortest_path-Finds facts undirected source target))
      | inr (result, e) ↦ (
        result,
        e,
        subst (Finds facts undirected source target) e
            (shortest_path-Finds facts undirected source target),
      )
    ]
