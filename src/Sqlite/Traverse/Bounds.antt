-- ===== src/Sqlite/Traverse/Bounds.antt =====
-- storage/sqlite/sqlite.go: the result of Traverse, and the limits of a request.
use agent_graph.Prelude.{
  Bool, not, ℕ, ◌+◌, Str, List, [], ◌∷◌, map, true, ◌≡◌, refl, sym, ap, arith, In, In-map, map-In,
  ◌↔◌, ◌==◌, str_eq, nat_eq, ◌||◌, is_empty, lookup, lookup→In, length, ok, bind_ok, ◌⊎◌, inl, inr,
  subst, Bool-cases, Option-cases, ◌∙◌, str_ltb,
}
use agent_graph.Prelude.Int.{ℤ, pos, negsuc}
use agent_graph.Graph.Types.{Node, Edge}
use agent_graph.GoSort.{sort_strings, In-sort_slice, length-sort_slice}
use agent_graph.GoSort.Strings.{In-sort_strings}
use agent_graph.Query.Types.{TraversalDirection, TraversalRequest, TraversalResult}
use agent_graph.Sqlite.Traverse.{
  Reads, edge_key, Selection, map_values, sorted_nodes, sorted_edges, is_selected, expand_rounds,
  check_depth, Started, begun, cut_short, select_starts, result_of, start_result, no_selection,
  finish, traverse_from, is_supported, traverse,
}
use agent_graph.Sqlite.Traverse.Selected.{Reached, IsSelection, IsWithin}
use agent_graph.Sqlite.Traverse.Rounds.{
  NamesNodes, Holds-le, expand_rounds-Holds, check_depth-Holds, StartHolds, select_starts-Holds,
}

module _ (reads : Reads) (direction : TraversalDirection) (relations scoped : List Str) (limit : ℕ)
    (start_ids : List Str) where
  abbrev Within : ℕ → Str → Type 0
  Within depth id = Reached reads direction relations scoped limit start_ids depth id

  abbrev Holds : ℕ → Selection → Type 0
  Holds depth s = IsSelection reads direction relations scoped limit start_ids depth s

  abbrev Promises : ℕ → TraversalResult → Type 0
  Promises depth result = IsWithin reads direction relations scoped limit start_ids depth result

  length-map_values :
      {V : Type 0} (entries : List (Str × V)) → length (map_values entries) ≡ length entries
  length-map_values [] = refl
  length-map_values (e ∷ entries) = ground (arith, length-map_values entries)

  length-sorted_nodes : (nodes : List (Str × Node)) → length (sorted_nodes nodes) ≡ length nodes
  unfolding sorted_nodes
  length-sorted_nodes nodes =
      length-sort_slice (λ (left right : Node). str_ltb left.id right.id) (map_values nodes)
      ∙ length-map_values nodes

  In-sorted_nodes :
      (node : Node) (nodes : List (Str × Node))
      → In node (sorted_nodes nodes) ↔ In node (map_values nodes)
  unfolding sorted_nodes
  In-sorted_nodes node nodes =
      In-sort_slice (λ (left right : Node). str_ltb left.id right.id) node (map_values nodes)

  In-sorted_edges :
      (edge : Edge) (edges : List (Str × Edge))
      → In edge (sorted_edges edges)
      → In edge (map_values edges)
  unfolding sorted_edges
  In-sorted_edges edge edges i =
      (In-sort_slice (λ (left right : Edge). str_ltb (edge_key left) (edge_key right)) edge
          (map_values edges)).0
        i

  sorted_nodes-Within :
      (depth : ℕ) (s : Selection) (node : Node)
      → Holds depth s
      → In node (sorted_nodes s.nodes)
      → Within depth node.id
  sorted_nodes-Within depth s node holds i =
      let (entry, j, e) =
        map-In (λ (x : Str × Node). x.1) s.nodes ((In-sorted_nodes node s.nodes).0 i) in
      let (named, within) = holds.nodes entry j in
      subst (Within depth) (sym named ∙ ap (λ (n : Node). n.id) e) within

  selected-In :
      (depth : ℕ) (s : Selection) (id : Str)
      → Holds depth s
      → is_selected id s ≡ true
      → In id (map (λ (n : Node). n.id) (sorted_nodes s.nodes))
  selected-In depth s id holds h = elim (Option-cases (lookup id s.nodes)) [
    | inl n ↦ absurd (ground (arith, h, n))
    | inr (node, found) ↦
        let i = lookup→In id s.nodes found in
        let (named, within) = holds.nodes (id, node) i in
        subst (λ x. In x (map (λ (n : Node). n.id) (sorted_nodes s.nodes))) named
          (In-map (λ (n : Node). n.id) node (sorted_nodes s.nodes)
            ((In-sorted_nodes node s.nodes).1
              (In-map (λ (x : Str × Node). x.1) (id, node) s.nodes i)))
  ]

  result_of-IsWithin :
      (depth : ℕ) (s : Selection)
      → Holds depth s
      → Promises depth (result_of reads direction relations scoped limit s)
  result_of-IsWithin depth s holds = record {
    node_count = omega (arith, length-sorted_nodes s.nodes, holds.bounded);
    nodes = λ node i. sorted_nodes-Within depth s node holds i;
    edges = λ edge i.
        let (entry, j, e) =
          map-In (λ (x : Str × Edge). x.1) s.edges (In-sorted_edges edge s.edges i) in
        let (source, target) = holds.edges entry j in
        (
          selected-In depth s edge.source_id holds
              (subst (λ (x : Edge). is_selected x.source_id s ≡ true) e source),
          selected-In depth s edge.target_id holds
              (subst (λ (x : Edge). is_selected x.target_id s ≡ true) e target),
        );
  }

  start_result-IsWithin :
      (depth : ℕ) (s : Selection)
      → Holds depth s
      → Promises depth (start_result reads direction relations scoped limit s)
  start_result-IsWithin depth s holds = record {
    node_count = omega (arith, length-sorted_nodes s.nodes, holds.bounded);
    nodes = λ node i. sorted_nodes-Within depth s node holds i;
    edges = λ edge i. absurd i;
  }

  finish-IsWithin :
      (names : NamesNodes reads) (depth : ℕ) (r : Started reads direction relations scoped limit)
      {result : TraversalResult}
      → StartHolds reads direction relations scoped limit start_ids names r
      → finish reads direction relations scoped limit depth r ≡ ok result
      → Promises depth result
  finish-IsWithin names depth (cut_short s) holds h = subst (Promises depth) (ground (arith, h)) (
      start_result-IsWithin depth s (
        Holds-le reads direction relations scoped limit start_ids names 0 depth s (omega arith)
          holds))
  finish-IsWithin names depth (begun s) holds h =
      let ((frontier, reached), rounds, rest) =
        bind_ok (expand_rounds reads direction relations scoped limit depth s.next s) _ h in
      let (checked, check, done) =
        bind_ok (check_depth reads direction relations scoped limit frontier reached) _ rest in
      let end =
        expand_rounds-Holds reads direction relations scoped limit start_ids names depth 0 s.next s
          holds.next holds rounds in
      let holds_reached =
        Holds-le reads direction relations scoped limit start_ids names (0 + depth) depth reached
          (omega arith) end in
      subst (Promises depth) (ground (arith, done)) (
        result_of-IsWithin depth checked (
          check_depth-Holds reads direction relations scoped limit start_ids names depth frontier
            reached holds_reached check))

  traverse_from-IsWithin :
      (names : NamesNodes reads) (depth : ℕ) {result : TraversalResult}
      → traverse_from reads direction relations scoped limit depth start_ids ≡ ok result
      → Promises depth result
  unfolding traverse_from
  traverse_from-IsWithin names depth h =
      let (started, starts, rest) =
        bind_ok
          (select_starts reads direction relations scoped limit (sort_strings start_ids)
            (no_selection reads direction relations scoped limit))
          _ h in
      finish-IsWithin names depth started
        (select_starts-Holds reads direction relations scoped limit start_ids names
          (sort_strings start_ids) _ (λ id i. (In-sort_strings id start_ids).0 i)
          (record {
            bounded = omega arith;
            nodes = λ entry i. absurd i;
            edges = λ entry i. absurd i;
            next = λ id i. absurd i;
          })
          starts)
        rest

int_cases : (z : ℤ) → ((n : ℕ) × (z ≡ pos n)) ⊎ ((n : ℕ) × (z ≡ negsuc n))
int_cases (pos n) = inl (n, refl)
int_cases (negsuc n) = inr (n, refl)

-- If the store reads a node under its own id, a traversal that returns a result had a depth and a node limit that
-- are not negative, and a scope read from the store. The result has at most that many nodes, each is reached from
-- a start node by at most that many edges of the included relations, and every edge joins two nodes of the result.
pub traverse-IsWithin :
    (snapshot_given : Bool) (reads : Reads) (request : TraversalRequest) (result : TraversalResult)
    → NamesNodes reads
    → traverse snapshot_given reads request ≡ ok result
    → (depth : ℕ) × (limit : ℕ) × (scoped : List Str) × (request.max_depth ≡ pos depth)
      × (request.max_nodes ≡ pos limit)
      × (reads.read_scoped_node_ids request.project_ids ≡ ok scoped)
      × IsWithin reads request.direction request.relations scoped limit request.start_node_ids depth
          result
unfolding traverse
traverse-IsWithin snapshot_given reads request result names h = elim (int_cases request.max_depth) [
  | inr (n, e) ↦ absurd (ground (arith, e, h))
  | inl (depth, e) ↦ elim (int_cases request.max_nodes) [
    | inr (n, f) ↦ absurd (ground (arith, e, f, h))
    | inl (limit, f) ↦
        elim (Bool-cases (not snapshot_given || is_empty request.start_node_ids || limit == 0)) [
          | inl t ↦ absurd (ground (arith, e, f, t, h))
          | inr valid ↦ elim (Bool-cases (is_supported request.direction)) [
            | inr u ↦ absurd (ground (arith, e, f, valid, u, h))
            | inl supported ↦
                let (scoped, read, rest) =
                  bind_ok (reads.read_scoped_node_ids request.project_ids)
                    (λ (scoped : List Str).
                      traverse_from reads request.direction request.relations scoped limit depth
                        request.start_node_ids)
                    (ground (arith, e, f, valid, supported, h)) in
                let within =
                  traverse_from-IsWithin reads request.direction request.relations scoped limit
                    request.start_node_ids names depth rest in
                (depth, limit, scoped, e, f, read, within)
          ]
        ]
  ]
]
