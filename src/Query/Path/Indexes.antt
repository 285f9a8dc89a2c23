-- ===== src/Query/Path/Indexes.antt =====
-- query/path.go: the edges that the search follows from a node.
use agent_graph.Prelude.{
  Str, List, [], ◌∷◌, ◌++◌, Bool, true, false, ◌≡◌, ◌↔◌, refl, sym, arith, ◌⊎◌, inl, inr, In,
  str_eq, Str-discrete, lookup-assign, ◌==◌, if◌then◌else◌, In-append, In-append_left,
  In-append_right, str_ltb, Bool-cases, subst,
}
use agent_graph.Graph.Types.{Edge}
use agent_graph.Query.Path.{
  edges_at, append_edge, file_edge, index_edges, insert_edge, sort_edges, path_edge_key, neighbor,
  edges_of,
}
use agent_graph.Query.Path.Spec.{Joins}

-- Sorting keeps the edges.
In-insert_edge :
    (e edge : Edge) (xs : List Edge) → In e (insert_edge edge xs) ↔ ((edge ≡ e) ⊎ In e xs)
unfolding insert_edge
In-insert_edge e edge [] = (λ i. i, λ i. i)
In-insert_edge e edge (x ∷ xs) =
    elim (Bool-cases (str_ltb (path_edge_key x) (path_edge_key edge))) [
      | inl t ↦
          let h = In-insert_edge e edge xs in
          rw t (λ i. ground (arith, h.0), λ i. ground (arith, h.1))
      | inr f ↦ rw f (λ i. i, λ i. i)
    ]

In-sort_edges : (e : Edge) (xs : List Edge) → In e (sort_edges xs) ↔ In e xs
unfolding sort_edges
In-sort_edges e [] = (λ i. i, λ i. i)
In-sort_edges e (x ∷ xs) =
    let h = In-insert_edge e x (sort_edges xs) in
    let k = In-sort_edges e xs in (λ i. ground (arith, h.0 i, k.0), λ i. ground (arith, h.1, k.1))

abbrev pub Touches : Bool → Edge → Str → Type 0
Touches undirected edge id = (edge.source_id ≡ id) ⊎ ((undirected ≡ true) × (edge.target_id ≡ id))

edges_at-append_edge :
    (edge : Edge) (key id : Str) (m : List (Str × List Edge))
    → edges_at (append_edge key edge m) id
      ≡ (if key == id then edges_at m id ++ edge ∷ [] else edges_at m id)
edges_at-append_edge edge key id m =
    ground (arith, lookup-assign key id (edges_at m key ++ edge ∷ []) m)

In-append_edge :
    (e edge : Edge) (key id : Str) (m : List (Str × List Edge))
    → In e (edges_at (append_edge key edge m) id)
      ↔ (In e (edges_at m id) ⊎ ((key ≡ id) × (edge ≡ e)))
In-append_edge e edge key id m = elim (Str-discrete key id) [
  | yes p ↦
      let q : edges_at (append_edge key edge m) id ≡ edges_at m id ++ edge ∷ [] =
        ground (arith, edges_at-append_edge edge key id m, p) in
      (
        λ i. elim (In-append e (edges_at m id) (edge ∷ []) (subst (In e) q i)) [
          | inl j ↦ inl j
          | inr (inl j) ↦ inr (p, j)
          | inr (inr j) ↦ absurd j
        ],
        λ i. subst (In e) (sym q) (elim i [
          | inl j ↦ In-append_left e (edges_at m id) (edge ∷ []) j
          | inr j ↦ In-append_right e (edges_at m id) (edge ∷ []) (inl j.1)
        ]),
      )
  | no n ↦
      let q : edges_at (append_edge key edge m) id ≡ edges_at m id =
        ground (arith, edges_at-append_edge edge key id m, n) in
      (
        λ i. inl (subst (In e) q i),
        λ i. elim i [ inl j ↦ subst (In e) (sym q) j | inr j ↦ absurd (n j.0) ],
      )
]

In-file_edge :
    (undirected : Bool) (e edge : Edge) (id : Str) (m : List (Str × List Edge))
    → In e (edges_at (file_edge undirected edge m) id)
      ↔ (In e (edges_at m id) ⊎ (Touches undirected edge id × (edge ≡ e)))
In-file_edge false e edge id m =
    let h = In-append_edge e edge edge.source_id id m in
    (
      λ i. elim (h.0 i) [ inl j ↦ inl j | inr j ↦ inr (inl j.0, j.1) ],
      λ i. h.1 (elim i [ inl j ↦ inl j | inr (inl j, p) ↦ inr (j, p) | inr (inr j, p) ↦ cc j.0 ]),
    )
In-file_edge true e edge id m =
    let h = In-append_edge e edge edge.source_id id m in
    let k = In-append_edge e edge edge.target_id id (append_edge edge.source_id edge m) in
    (
      λ i. elim (k.0 i) [
        | inl j ↦ elim (h.0 j) [ inl l ↦ inl l | inr l ↦ inr (inl l.0, l.1) ]
        | inr j ↦ inr (inr (refl, j.0), j.1)
      ],
      λ i. k.1 (elim i [
        | inl j ↦ inl (h.1 (inl j))
        | inr (inl j, p) ↦ inl (h.1 (inr (j, p)))
        | inr (inr j, p) ↦ inr (j.1, p)
      ]),
    )

In-index_edges :
    (undirected : Bool) (e : Edge) (id : Str) (m : List (Str × List Edge)) (edges : List Edge)
    → In e (edges_at (index_edges undirected m edges) id)
      ↔ (In e (edges_at m id) ⊎ (Touches undirected e id × In e edges))
unfolding index_edges
In-index_edges undirected e id m [] = (λ i. inl i, λ i. elim i [ inl j ↦ j | inr j ↦ absurd j.1 ])
In-index_edges undirected e id m (edge ∷ edges) =
    let h = In-file_edge undirected e edge id m in
    let k = In-index_edges undirected e id (file_edge undirected edge m) edges in
    (
      λ i. elim (k.0 i) [
        | inl j ↦ elim (h.0 j) [
          | inl l ↦ inl l
          | inr (t, p) ↦ inr (subst (λ x. Touches undirected x id) p t, inl p)
        ]
        | inr (t, j) ↦ inr (t, inr j)
      ],
      λ i. k.1 (elim i [
        | inl j ↦ inl (h.1 (inl j))
        | inr (t, inl p) ↦ inl (h.1 (inr (subst (λ x. Touches undirected x id) (sym p) t, p)))
        | inr (t, inr j) ↦ inr (t, j)
      ]),
    )

-- The edges that the search follows from a node are those of the facts that touch it.
pub In-edges_of :
    (undirected : Bool) (edges : List Edge) (e : Edge) (id : Str)
    → In e (edges_of [] (index_edges undirected [] edges) undirected id)
      ↔ (Touches undirected e id × In e edges)
In-edges_of undirected edges e id =
    let h = In-sort_edges e (edges_at (index_edges undirected [] edges) id) in
    let k = In-index_edges undirected e id [] edges in
    (λ i. elim (k.0 (h.0 i)) [ inl j ↦ absurd j | inr j ↦ j ], λ i. h.1 (k.1 (inr i)))

-- Such an edge leads to the other end.
pub neighbor-Joins :
    (undirected : Bool) (e : Edge) (a b : Str)
    → Touches undirected e a
    → neighbor undirected a e ≡ b
    → Joins undirected e a b
neighbor-Joins false e a b (inl s) h = inl (s, h)
neighbor-Joins false e a b (inr t) h = cc t.0
neighbor-Joins true e a b t h = elim (Str-discrete e.target_id a) [
  | yes p ↦ inr (refl, p, ground (arith, h, p))
  | no n ↦ elim t [ inl s ↦ inl (s, ground (arith, h, n)) | inr r ↦ absurd (n r.1) ]
]

pub Joins-neighbor :
    (undirected : Bool) (e : Edge) (a b : Str)
    → Joins undirected e a b
    → Touches undirected e a × (neighbor undirected a e ≡ b)
Joins-neighbor undirected e a b (inl (s, t)) = (inl s, ground (arith, s, t))
Joins-neighbor undirected e a b (inr (u, t, s)) = (inr (u, t), ground (arith, u, t, s))
