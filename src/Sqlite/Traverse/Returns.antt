-- ===== src/Sqlite/Traverse/Returns.antt =====
-- storage/sqlite/sqlite.go: when Traverse returns a result, round by round.
use agent_graph.Prelude.{
  ℕ, zero, suc, Str, List, [], ◌∷◌, ◌++◌, true, false, Option, none, some, ◌≡◌, refl, ap, arith, In,
  Result, ok, ◌>>=◌, inl, inr, Bool-cases, Option-cases, if_ind, is_empty, ◌==◌, nat_eq, ◌∙◌,
}
use agent_graph.Prelude.Int.{pos}
use agent_graph.Graph.Types.{Node, Edge}
use agent_graph.GoSort.{sort_strings}
use agent_graph.GoSort.Strings.{In-sort_strings}
use agent_graph.Query.Types.{TraversalDirection, TraversalRequest, QueryError}
use agent_graph.Sqlite.Traverse.{
  Reads, traversal_neighbor, Selection, includes_relation, out_of_scope, is_selected, is_full,
  add_node, follow_neighbor, follow_edge, follow_edges, expand_frontier, expand_rounds,
  has_traversable_neighbor, check_depth, Started, begun, cut_short, select_starts, finish,
  traverse_from, is_supported, traverse,
}

abbrev pub Returns : {A : Type 0} → Result QueryError A → Type 0
Returns {A} r = (a : A) × (r ≡ ok a)

bind-Returns :
    {A B : Type 0} (r : Result QueryError A) (f : A → Result QueryError B)
    → Returns r
    → ((a : A) → Returns (f a))
    → Returns (r >>= f)
bind-Returns r f (a, e) h = let (b, p) = h a in (b, ap (λ x. x >>= f) e ∙ p)

-- No read of the snapshot fails.
pub record Answers (reads : Reads) : Type 0 where
  pub read_node : (id : Str) → Returns (reads.read_node id)
  pub read_incident_edges : (id : Str) → Returns (reads.read_incident_edges id)

-- Every start node that the store has lies in the scope.
abbrev pub InScope : Reads → List Str → List Str → Type 0
InScope reads scoped ids =
    (id : Str) (node : Node)
    → In id ids
    → reads.read_node id ≡ ok (some node)
    → out_of_scope scoped id ≡ false

module _ (reads : Reads) (direction : TraversalDirection) (relations scoped : List Str) (limit : ℕ)
    (answers : Answers reads) where
  follow_neighbor-Returns :
      (edge : Edge) (s : Selection) (neighbor : Option Str)
      → Returns (follow_neighbor reads direction relations scoped limit edge s neighbor)
  follow_neighbor-Returns edge s none = (s, refl)
  follow_neighbor-Returns edge s (some id) =
      bind-Returns (reads.read_node id) _ (answers.read_node id) (λ found. (_, refl))

  follow_edges-Returns :
      (id : Str) (edges : List Edge) (s : Selection)
      → Returns (follow_edges reads direction relations scoped limit id edges s)
  unfolding follow_edges
  follow_edges-Returns id [] s = (s, refl)
  follow_edges-Returns id (edge ∷ edges) s =
      bind-Returns (follow_edge reads direction relations scoped limit id edge s) _
        (if_ind Returns (includes_relation relations edge)
          (λ t. follow_neighbor-Returns edge s (traversal_neighbor id edge direction))
          (λ f. (s, refl)))
        (follow_edges-Returns id edges)

  expand_frontier-Returns :
      (frontier : List Str) (s : Selection)
      → Returns (expand_frontier reads direction relations scoped limit frontier s)
  unfolding expand_frontier
  expand_frontier-Returns [] s = (s, refl)
  expand_frontier-Returns (id ∷ frontier) s =
      bind-Returns (reads.read_incident_edges id) _ (answers.read_incident_edges id) (λ edges.
        bind-Returns (follow_edges reads direction relations scoped limit id edges s) _
          (follow_edges-Returns id edges s) (expand_frontier-Returns frontier))

  expand_rounds-Returns :
      (rounds : ℕ) (frontier : List Str) (s : Selection)
      → Returns (expand_rounds reads direction relations scoped limit rounds frontier s)
  unfolding expand_rounds
  expand_rounds-Returns zero frontier s = ((frontier, s), refl)
  expand_rounds-Returns (suc rounds) [] s = (([], s), refl)
  expand_rounds-Returns (suc rounds) (f ∷ fs) s =
      bind-Returns (expand_frontier reads direction relations scoped limit (f ∷ fs) _) _
        (expand_frontier-Returns (f ∷ fs) (record s { next = [] }))
        (λ reached. expand_rounds-Returns rounds _ reached)

  check_depth-Returns :
      (frontier : List Str) (s : Selection)
      → Returns (check_depth reads direction relations scoped limit frontier s)
  unfolding check_depth
  check_depth-Returns [] s = (s, refl)
  check_depth-Returns (id ∷ frontier) s =
      bind-Returns (reads.read_incident_edges id) _ (answers.read_incident_edges id) (λ edges.
        if_ind (λ (r : Result QueryError Selection). Returns r)
          (has_traversable_neighbor reads direction relations scoped limit id edges s)
          (λ t. (_, refl)) (λ f. check_depth-Returns frontier s))

  -- The first start node, if the ones behind it return from every selection.
  first_start-Returns :
      (id : Str) (ids : List Str) (s : Selection)
      → InScope reads scoped (id ∷ ids)
      → ((t : Selection) → Returns (select_starts reads direction relations scoped limit ids t))
      → Returns (select_starts reads direction relations scoped limit (id ∷ ids) s)
  unfolding select_starts
  first_start-Returns id ids s within later = elim (Bool-cases (is_selected id s)) [
    | inl t ↦ let (r, p) = later s in (r, ground (arith, t, p))
    | inr f ↦
        let (found, answer) = answers.read_node id in
        elim (Option-cases found) [
          | inl n ↦
              let (r, p) = later s in
              let read : reads.read_node id ≡ ok none = ground (arith, answer, n) in
              (r, ground (arith, f, read, p))
          | inr (node, q) ↦
              let read : reads.read_node id ≡ ok (some node) = ground (arith, answer, q) in
              elim (Bool-cases (is_full reads direction relations scoped limit s)) [
                | inl full ↦
                    (cut_short s, ground (arith, f, read, within id node (inl refl) read, full))
                | inr room ↦
                    let (r, p) = later (add_node id node (record s { next = s.next ++ id ∷ [] })) in
                    (r, ground (arith, f, read, within id node (inl refl) read, room, p))
              ]
        ]
  ]

  select_starts-Returns :
      (ids : List Str) (s : Selection)
      → InScope reads scoped ids
      → Returns (select_starts reads direction relations scoped limit ids s)
  unfolding select_starts
  select_starts-Returns [] s within = (begun s, refl)
  select_starts-Returns (id ∷ ids) s within =
      first_start-Returns id ids s within
        (λ t. select_starts-Returns ids t (λ other node i. within other node (inr i)))

  finish-Returns :
      (depth : ℕ) (started : Started reads direction relations scoped limit)
      → Returns (finish reads direction relations scoped limit depth started)
  finish-Returns depth (cut_short s) = (_, refl)
  finish-Returns depth (begun s) =
      bind-Returns (expand_rounds reads direction relations scoped limit depth s.next s) _
        (expand_rounds-Returns depth s.next s)
        (λ (frontier, reached).
          bind-Returns (check_depth reads direction relations scoped limit frontier reached) _
            (check_depth-Returns frontier reached) (λ checked. (_, refl)))

  traverse_from-Returns :
      (depth : ℕ) (start_ids : List Str)
      → InScope reads scoped start_ids
      → Returns (traverse_from reads direction relations scoped limit depth start_ids)
  unfolding traverse_from
  traverse_from-Returns depth start_ids within =
      bind-Returns (select_starts reads direction relations scoped limit (sort_strings start_ids) _)
        _
        (select_starts-Returns (sort_strings start_ids) _
          (λ id node i. within id node ((In-sort_strings id start_ids).0 i)))
        (finish-Returns depth)

-- On a snapshot with a workspace and a version, a traversal returns a result if no read fails, its direction is one of
-- the three, it has start nodes, a depth that is not negative and a node limit above 0, and every start node that the
-- store has lies in the scope that the store reads.
pub traverse-Returns :
    (reads : Reads) (request : TraversalRequest) (depth limit : ℕ) (scoped : List Str)
    (answers : Answers reads)
    → request.max_depth ≡ pos depth
    → request.max_nodes ≡ pos (suc limit)
    → is_supported request.direction ≡ true
    → is_empty request.start_node_ids ≡ false
    → reads.read_scoped_node_ids request.project_ids ≡ ok scoped
    → InScope reads scoped request.start_node_ids
    → Returns (traverse true reads request)
unfolding traverse
traverse-Returns reads request depth limit scoped answers e f supported given read within =
    let (result, p) =
      traverse_from-Returns reads request.direction request.relations scoped (suc limit) answers
        depth request.start_node_ids within in
    let positive : (suc limit == 0) ≡ false = ground arith in
    (result, ground (arith, e, f, supported, given, read, positive, p))
