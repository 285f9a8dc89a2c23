-- ===== src/Query/Path/NodeIndex.antt =====
-- query/path.go: what the map `nodes` of shortestPath holds.
use agent_graph.Prelude.{
  suc, Str, List, [], ◌∷◌, Option, none, some, true, ◌≡◌, ◌↔◌, sym, ap, arith, ◌⊎◌, inl, inr, ◌∙◌,
  In, str_eq, Str-discrete, lookup, assign, lookup-assign, is_some, Option-cases, length, ◌≤◌, ◌+◌,
}
use agent_graph.Graph.Types.{Node}
use agent_graph.Query.Path.{index_nodes}

-- The index of the nodes holds nodes of the facts, under their ids.
index_nodes-found :
    (m : List (Str × Node)) (nodes : List Node) (id : Str) (node : Node)
    → lookup id (index_nodes m nodes) ≡ some node
    → (lookup id m ≡ some node) ⊎ (In node nodes × (node.id ≡ id))
unfolding index_nodes
index_nodes-found m [] id node h = inl h
index_nodes-found m (x ∷ nodes) id node h =
    elim (index_nodes-found (assign x.id x m) nodes id node h) [
      | inl j ↦ elim (Str-discrete x.id id) [
        | yes p ↦
            let q : x ≡ node = ground (arith, j, p, lookup-assign x.id id x m) in
            inr (inl q, sym (ap (λ (y : Node). y.id) q) ∙ p)
        | no n ↦ inl (ground (arith, j, n, lookup-assign x.id id x m))
      ]
      | inr (i, p) ↦ inr (inr i, p)
    ]

index_nodes-kept :
    (m : List (Str × Node)) (nodes : List Node) (id : Str)
    → (is_some (lookup id m) ≡ true) ⊎ ((node : Node) × In node nodes × (node.id ≡ id))
    → is_some (lookup id (index_nodes m nodes)) ≡ true
unfolding index_nodes
index_nodes-kept m [] id (inl h) = h
index_nodes-kept m [] id (inr (node, i, p)) = absurd i
index_nodes-kept m (x ∷ nodes) id h =
    index_nodes-kept (assign x.id x m) nodes id (elim (Str-discrete x.id id) [
      | yes p ↦ inl (ground (arith, p, lookup-assign x.id id x m))
      | no n ↦ elim h [
        | inl k ↦ inl (ground (arith, k, n, lookup-assign x.id id x m))
        | inr (node, inl q, i) ↦ absurd (n (ap (λ (y : Node). y.id) q ∙ i))
        | inr (node, inr q, i) ↦ inr (node, q, i)
      ]
    ])

module _ (nodes : List Node) where
  pub lookup-index_nodes :
      (id : Str) (node : Node)
      → lookup id (index_nodes [] nodes) ≡ some node
      → In node nodes × (node.id ≡ id)
  lookup-index_nodes id node h = elim (index_nodes-found [] nodes id node h) [
    | inl e ↦ absurd (none_some e)
    | inr k ↦ k
  ]
    where
      none_some : ◌≡◌ {A = Option Node} none (some node) → ⊥
      none_some e = cc

  pub index_nodes_known :
      (id : Str)
      → (is_some (lookup id (index_nodes [] nodes)) ≡ true)
        ↔ ((node : Node) × In node nodes × (node.id ≡ id))
  index_nodes_known id = (
    λ h. elim (Option-cases (lookup id (index_nodes [] nodes))) [
      | inl e ↦ ground (arith, h, e)
      | inr (node, e) ↦ let (i, p) = lookup-index_nodes id node e in (node, i, p)
    ],
    λ k. index_nodes-kept [] nodes id (inr k),
  )

length-assign :
    (k : Str) (node : Node) (m : List (Str × Node)) → length (assign k node m) ≤ suc (length m)
length-assign k node [] = omega arith
length-assign k node ((l, x) ∷ m) = ground (arith, length-assign k node m)

pub length-index_nodes :
    (m : List (Str × Node)) (nodes : List Node)
    → length (index_nodes m nodes) ≤ length m + length nodes
unfolding index_nodes
length-index_nodes m [] = omega arith
length-index_nodes m (x ∷ nodes) =
    omega (arith, length-index_nodes (assign x.id x m) nodes, length-assign x.id x m)
