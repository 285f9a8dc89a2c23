-- ===== src/Query/Path/Back.antt =====
-- query/path.go: the walk back from the target gives a path of the facts.
use agent_graph.Prelude.{
  ℕ, zero, suc, Str, List, [], ◌∷◌, ◌++◌, Option, none, some, Bool, true, ◌≡◌, ◌≢◌, ◌↔◌, refl, sym,
  ap, arith, inl, inr, In, str_eq, Str-discrete, lookup, length, map, ◌<◌, subst, is_some,
  Option-cases, length-append,
}
use agent_graph.Graph.Types.{Node, Edge, Facts}
use agent_graph.Query.Path.{index_nodes, index_edges, walk_back, node_at}
use agent_graph.Query.Path.Spec.{Joins, IsKnown, IsPath}
use agent_graph.Query.Path.Indexes.{In-edges_of, neighbor-Joins, Joins-neighbor}
use agent_graph.Query.Path.NodeIndex.{lookup-index_nodes, index_nodes_known}
use agent_graph.Query.Path.Depth.{
  Predecessors, depth, IsTree, Placed, depth_source, lookup-IsTree, lookup-Placed,
}
use agent_graph.Query.Path.Invariant.{Link}
use mathlib.Core.List.{reverse, reverse-cons}

IsPath-snoc :
    (facts : Facts) (undirected : Bool) (a b : Str) (nodes : List Node) (edges : List Edge)
    (node : Node) (edge : Edge)
    → IsPath facts undirected a b nodes edges
    → In edge facts.edges
    → Joins undirected edge b node.id
    → In node facts.nodes
    → IsPath facts undirected a node.id (nodes ++ node ∷ []) (edges ++ edge ∷ [])
IsPath-snoc facts undirected a b [] edges node edge p e j n = absurd p
IsPath-snoc facts undirected a b (x ∷ []) [] node edge p e j n =
    (p.0, p.2, e, subst (λ c. Joins undirected edge c node.id) (sym p.1) j, (refl, refl, n))
IsPath-snoc facts undirected a b (x ∷ []) (d ∷ edges) node edge p e j n = absurd p
IsPath-snoc facts undirected a b (x ∷ y ∷ nodes) [] node edge p e j n = absurd p
IsPath-snoc facts undirected a b (x ∷ y ∷ nodes) (d ∷ edges) node edge (i, m, k, l, rest) e j n =
    (i, m, k, l, IsPath-snoc facts undirected y.id b (y ∷ nodes) edges node edge rest e j n)

pub length-reverse : (edges : List Edge) → length (reverse edges) ≡ length edges
length-reverse [] = refl
length-reverse (x ∷ edges) = omega (
  arith,
  ap length (reverse-cons x edges),
  length-append (reverse edges) (x ∷ []),
  length-reverse edges,
)

module _ (facts : Facts) (undirected : Bool) (source : Str) where
  abbrev pub nodes : List (Str × Node)
  nodes = index_nodes [] facts.nodes

  abbrev pub edges_by_source : List (Str × List Edge)
  edges_by_source = index_edges undirected [] facts.edges

  abbrev pub Follows : Str → Edge → Str → Type 0
  Follows = Link nodes edges_by_source undirected source

  pub node_at_known :
      (id : Str)
      → is_some (lookup id nodes) ≡ true
      → In (node_at nodes id) facts.nodes × ((node_at nodes id).id ≡ id)
  node_at_known id h = elim (Option-cases (lookup id nodes)) [
    | inl e ↦ cc (h, e)
    | inr (node, e) ↦
        subst (λ (x : Node). In x facts.nodes × (x.id ≡ id)) {x = node} (sym (at id node e))
          (lookup-index_nodes facts.nodes id node e)
  ]
    where
      at : (id : Str) (node : Node) → lookup id nodes ≡ some node → node_at nodes id ≡ node
      at id node e = ground (arith, e)

  -- The links that the search follows are the edges of the facts between known nodes.
  pub links_iff :
      (p : Str) (e : Edge) (n : Str)
      → Follows p e n ↔ (In e facts.edges × Joins undirected e p n × IsKnown facts n)
  links_iff p e n = (
    λ (i, q, k).
        let (t, j) = (In-edges_of undirected facts.edges e p).0 i in
        (j, neighbor-Joins undirected e p n t q, (index_nodes_known facts.nodes n).0 k),
    λ (i, j, k).
        let (t, q) = Joins-neighbor undirected e p n j in
        (
          (In-edges_of undirected facts.edges e p).1 (t, i),
          q,
          (index_nodes_known facts.nodes n).1 k,
        ),
  )

  module _ (ps : Predecessors) (tree : IsTree Follows source ps)
      (known : is_some (lookup source nodes) ≡ true) where
    -- What the walk back from a node gives: the rest of a path from the source, with as many edges as the
    -- node is deep.
    abbrev pub Traces : Str → Option (List Str × List Edge) → Type 0
    Traces id none = ⊥
    Traces id (some (ids, edges)) =
        IsPath facts undirected source id (reverse (map (node_at nodes) (id ∷ ids))) (reverse edges)
        × (length edges ≡ depth ps id)

    extend :
        (id previous : Str) (e : Edge) (ids : List Str) (edges : List Edge)
        → Follows previous e id
        → depth ps id ≡ suc (depth ps previous)
        → Traces previous (some (ids, edges))
        → Traces id (some (previous ∷ ids, e ∷ edges))
    extend id previous e ids edges link deeper (path, len) =
        let (i, j, _) = (links_iff previous e id).0 link in
        let (m, named) = node_at_known id link.2 in
        let path' =
          IsPath-snoc facts undirected source previous
            (reverse (map (node_at nodes) (previous ∷ ids))) (reverse edges) (node_at nodes id) e
            path i (subst (Joins undirected e previous) (sym named) j) m in
        let p : IsPath facts undirected source id
            (reverse (map (node_at nodes) (previous ∷ ids)) ++ node_at nodes id ∷ [])
            (reverse edges ++ e ∷ []) =
          subst
            (λ x.
              IsPath facts undirected source x
                (reverse (map (node_at nodes) (previous ∷ ids)) ++ node_at nodes id ∷ [])
                (reverse edges ++ e ∷ []))
            named path' in
        (
          subst (λ ns. IsPath facts undirected source id ns (reverse (e ∷ edges)))
              (sym (reverse-cons (node_at nodes id) (map (node_at nodes) (previous ∷ ids))))
              (subst
                (λ es.
                  IsPath facts undirected source id
                    (reverse (map (node_at nodes) (previous ∷ ids)) ++ node_at nodes id ∷ []) es)
                (sym (reverse-cons e edges)) p),
          omega (arith, len, deeper),
        )

    stops : (fuel : ℕ) (id : Str) → id ≡ source → walk_back (suc fuel) source ps id ≡ some ([], [])
    unfolding walk_back
    stops fuel id p = ground (arith, p)

    goes_on :
        (fuel : ℕ) (id previous : Str) (e : Edge) (ids : List Str) (edges : List Edge)
        → id ≢ source
        → lookup id ps ≡ some (previous, e)
        → walk_back fuel source ps previous ≡ some (ids, edges)
        → walk_back (suc fuel) source ps id ≡ some (previous ∷ ids, e ∷ edges)
    unfolding walk_back
    goes_on fuel id previous e ids edges far found more = ground (arith, far, found, more)

    traced :
        (fuel : ℕ) (id previous : Str) (e : Edge)
        → id ≢ source
        → lookup id ps ≡ some (previous, e)
        → Follows previous e id
        → depth ps id ≡ suc (depth ps previous)
        → Traces previous (walk_back fuel source ps previous)
        → Traces id (walk_back (suc fuel) source ps id)
    traced fuel id previous e far found link deeper up =
        elim (Option-cases (walk_back fuel source ps previous)) [
          | inl stopped ↦ absurd (subst (Traces previous) stopped up)
          | inr ((ids, edges), more) ↦
              subst (Traces id) (sym (goes_on fuel id previous e ids edges far found more))
                (extend id previous e ids edges link deeper (subst (Traces previous) more up))
        ]

    -- The walk back ends, with more fuel than the node is deep.
    pub walk_back-Traces :
        (fuel : ℕ) (id : Str)
        → Placed Follows source ps id
        → depth ps id < fuel
        → Traces id (walk_back fuel source ps id)
    walk_back-Traces zero id placed enough = absurd (omega (arith, enough))
    walk_back-Traces (suc fuel) id placed enough = elim (Str-discrete id source) [
      | yes p ↦
          let (m, named) = node_at_known source known in
          subst (Traces id) (sym (stops fuel id p)) (
            subst (λ x. Traces x (some ([], []))) (sym p)
              ((named, refl, m), sym (depth_source Follows source ps tree)))
      | no far ↦
          let ((previous, e), found) = lookup-Placed Follows source ps id far placed in
          let (placed', link, deeper) =
            lookup-IsTree Follows source ps id {p = previous} {e = e} tree found in
          traced fuel id previous e far found link deeper
            (walk_back-Traces fuel previous placed' (omega (arith, enough, deeper)))
    ]
