-- ===== src/Sqlite/Traverse.antt =====
-- storage/sqlite/sqlite.go: Traverse, over the reads of a snapshot. A Go map is an association list here.
pub mod Selected
pub mod Returns
pub mod Rounds
pub mod Bounds
mod Examples
use agent_graph.Prelude.{
  ℕ, zero, suc, Str, List, [], ◌∷◌, ◌++◌, map, Bool, true, false, Option, none, some, ◌==◌, str_eq,
  nat_eq, if◌then◌else◌, ◌&&◌, ◌||◌, not, ltb, is_empty, is_some, mem, lookup, assign, length,
  Result, ok, err, ◌>>=◌, str_ltb, Eq,
}
use agent_graph.Prelude.Int.{ℤ, pos, negsuc}
use agent_graph.Graph.Types.{Node, Edge, Facts}
use agent_graph.GoSort.{sort_slice, sort_strings}
use agent_graph.Query.Types.{
  TraversalDirection, traverse_incoming, traverse_outgoing, traverse_both, traverse_other,
  TraversalRequest, TruncationReason, truncated_by_depth_limit, truncated_by_node_limit,
  TraversalResult, QueryError, request_invalid,
}

-- readNode, readIncidentEdges and readScopedNodeIDs of the snapshot.
pub record Reads : Type 0 where
  pub read_node : Str → Result QueryError (Option Node)
  pub read_incident_edges : Str → Result QueryError (List Edge)
  pub read_scoped_node_ids : List Str → Result QueryError (List Str)

abbrev pub out_of_edge : TraversalDirection → Bool
out_of_edge traverse_outgoing = true
out_of_edge traverse_both = true
out_of_edge _ = false

abbrev pub into_edge : TraversalDirection → Bool
into_edge traverse_incoming = true
into_edge traverse_both = true
into_edge _ = false

unfoldable pub traversal_neighbor : Str → Edge → TraversalDirection → Option Str
traversal_neighbor node_id edge direction =
    if out_of_edge direction && edge.source_id == node_id
    then some edge.target_id
    else if into_edge direction && edge.target_id == node_id
    then some edge.source_id
    else none

unfoldable pub edge_key : Edge → Str
edge_key edge = edge.source_id ++ 0 ∷ edge.target_id ++ 0 ∷ edge.relation

abbrev same_reason : TruncationReason → TruncationReason → Bool
same_reason truncated_by_depth_limit truncated_by_depth_limit = true
same_reason truncated_by_node_limit truncated_by_node_limit = true
same_reason _ _ = false

abbrev has_reason : TruncationReason → List TruncationReason → Bool
has_reason reason [] = false
has_reason reason (existing ∷ reasons) = same_reason existing reason || has_reason reason reasons

unfoldable pub add_truncation_reason :
    TruncationReason → List TruncationReason → List TruncationReason
add_truncation_reason reason reasons =
    if has_reason reason reasons then reasons else reasons ++ reason ∷ []

abbrev unique_strings : List Str → List Str
unique_strings [] = []
unique_strings (x ∷ xs) = let rest = unique_strings xs in if mem x rest then rest else x ∷ rest

unfoldable pub unique_sorted_strings : List Str → List Str
unique_sorted_strings values = sort_strings (unique_strings values)

-- What the traversal has selected, and the nodes that the next round starts from.
pub record Selection : Type 0 where
  pub nodes : List (Str × Node)
  pub edges : List (Str × Edge)
  pub reasons : List TruncationReason
  pub boundary : Option Node
  pub next : List Str

abbrev pub map_values : {V : Type 0} → List (Str × V) → List V
map_values entries = map (λ e. e.1) entries

unfoldable pub sorted_nodes : List (Str × Node) → List Node
unfolding sort_slice
sorted_nodes nodes = sort_slice (λ left right. str_ltb left.id right.id) (map_values nodes)

unfoldable pub sorted_edges : List (Str × Edge) → List Edge
unfolding sort_slice edge_key
sorted_edges edges =
    sort_slice (λ left right. str_ltb (edge_key left) (edge_key right)) (map_values edges)

abbrev pub includes_relation : List Str → Edge → Bool
includes_relation relations edge = is_empty relations || mem edge.relation relations

abbrev pub out_of_scope : List Str → Str → Bool
out_of_scope scoped node_id = not (is_empty scoped) && not (mem node_id scoped)

abbrev pub is_selected : Str → Selection → Bool
is_selected node_id s = is_some (lookup node_id s.nodes)

abbrev pub add_edge : Edge → Selection → Selection
add_edge edge s = record s { edges = assign (edge_key edge) edge s.edges }

abbrev pub add_node : Str → Node → Selection → Selection
add_node node_id node s = record s { nodes = assign node_id node s.nodes }

abbrev pub truncate : Selection → Selection
truncate s = record s { reasons = add_truncation_reason truncated_by_node_limit s.reasons }

-- Only the first node outside the scope is kept.
abbrev pub note_boundary : Node → Selection → Selection
note_boundary node s = record s { boundary = if is_some s.boundary then s.boundary else some node }

module _ (reads : Reads) (direction : TraversalDirection) (relations scoped : List Str)
    (limit : ℕ) where
  abbrev pub is_full : Selection → Bool
  is_full s = length s.nodes == limit

  abbrev pub reach_outside : Str → Node → Edge → Selection → Selection
  reach_outside neighbor_id neighbor edge s =
      let noted = note_boundary neighbor s in
      if is_full noted then truncate noted else add_edge edge (add_node neighbor_id neighbor noted)

  abbrev pub reach_inside : Str → Node → Edge → Selection → Selection
  reach_inside neighbor_id neighbor edge s =
      if is_selected neighbor_id s
      then add_edge edge s
      else if is_full s
      then truncate s
      else add_edge edge
          (add_node neighbor_id neighbor (record s { next = s.next ++ neighbor_id ∷ [] }))

  abbrev pub reach_neighbor : Str → Node → Edge → Selection → Selection
  reach_neighbor neighbor_id neighbor edge s =
      if out_of_scope scoped neighbor_id
      then reach_outside neighbor_id neighbor edge s
      else reach_inside neighbor_id neighbor edge s

  abbrev pub reach_found : Str → Edge → Selection → Option Node → Selection
  reach_found neighbor_id edge s none = s
  reach_found neighbor_id edge s (some neighbor) = reach_neighbor neighbor_id neighbor edge s

  abbrev pub follow_neighbor : Edge → Selection → Option Str → Result QueryError Selection
  follow_neighbor edge s none = ok s
  follow_neighbor edge s (some neighbor_id) =
      reads.read_node neighbor_id >>= λ found. ok (reach_found neighbor_id edge s found)

  abbrev pub follow_edge : Str → Edge → Selection → Result QueryError Selection
  follow_edge node_id edge s =
      if includes_relation relations edge
      then follow_neighbor edge s (traversal_neighbor node_id edge direction)
      else ok s

  unfoldable pub follow_edges : Str → List Edge → Selection → Result QueryError Selection
  follow_edges node_id [] s = ok s
  follow_edges node_id (edge ∷ edges) s = follow_edge node_id edge s >>= follow_edges node_id edges

  -- One round of the outer loop.
  unfoldable pub expand_frontier : List Str → Selection → Result QueryError Selection
  expand_frontier [] s = ok s
  expand_frontier (node_id ∷ frontier) s = reads.read_incident_edges node_id >>= λ edges.
      follow_edges node_id edges s >>= expand_frontier frontier

  -- The rounds, as many as the depth allows.
  unfoldable pub expand_rounds : ℕ → List Str → Selection → Result QueryError (List Str × Selection)
  expand_rounds zero frontier s = ok (frontier, s)
  expand_rounds (suc depth) [] s = ok ([], s)
  expand_rounds (suc depth) (f ∷ fs) s =
      expand_frontier (f ∷ fs) (record s { next = [] }) >>= λ reached.
      expand_rounds depth (unique_sorted_strings reached.next) reached

  unfoldable pub has_traversable_neighbor : Str → List Edge → Selection → Bool
  has_traversable_neighbor node_id [] s = false
  has_traversable_neighbor node_id (edge ∷ edges) s =
      let later = has_traversable_neighbor node_id edges s in
      if includes_relation relations edge
      then elim (traversal_neighbor node_id edge direction) [
        | none ↦ later
        | some neighbor_id ↦ if is_selected neighbor_id s then later else true
      ]
      else later

  -- The depth cut the traversal short if a node of the last frontier has a neighbour left.
  unfoldable pub check_depth : List Str → Selection → Result QueryError Selection
  check_depth [] s = ok s
  check_depth (node_id ∷ frontier) s = reads.read_incident_edges node_id >>= λ edges.
      if has_traversable_neighbor node_id edges s
      then ok (record s { reasons = add_truncation_reason truncated_by_depth_limit s.reasons })
      else check_depth frontier s

  -- The start nodes: all of them, or those that the limit allows, with which the traversal ends.
  pub data Started : Type 0 where
    begun : Selection → Started
    cut_short : Selection → Started

  unfoldable pub select_starts : List Str → Selection → Result QueryError Started
  select_starts [] s = ok (begun s)
  select_starts (node_id ∷ ids) s = elim (is_selected node_id s) [
    | true ↦ select_starts ids s
    | false ↦ reads.read_node node_id >>= λ found. elim found [
      | none ↦ select_starts ids s
      | some node ↦ if out_of_scope scoped node_id then err request_invalid else elim (is_full s) [
        | true ↦ ok (cut_short s)
        | false ↦
            select_starts ids (add_node node_id node (record s { next = s.next ++ node_id ∷ [] }))
      ]
    ]
  ]

  abbrev pub result_of : Selection → TraversalResult
  result_of s = record {
    facts = record { nodes = sorted_nodes s.nodes; edges = sorted_edges s.edges };
    truncation_reasons = s.reasons;
    scope_boundary = s.boundary;
  }

  abbrev pub start_result : Selection → TraversalResult
  start_result s = record {
    facts = record { nodes = sorted_nodes s.nodes; edges = [] };
    truncation_reasons = truncated_by_node_limit ∷ [];
    scope_boundary = none;
  }

  abbrev pub no_selection : Selection
  no_selection = record { nodes = []; edges = []; reasons = []; boundary = none; next = [] }

  abbrev pub finish : ℕ → Started → Result QueryError TraversalResult
  finish depth (cut_short s) = ok (start_result s)
  finish depth (begun s) = expand_rounds depth s.next s >>= λ (frontier, reached).
      check_depth frontier reached >>= λ checked. ok (result_of checked)

  unfoldable pub traverse_from : ℕ → List Str → Result QueryError TraversalResult
  unfolding select_starts expand_rounds check_depth
  traverse_from depth start_ids =
      select_starts (sort_strings start_ids) no_selection >>= finish depth

abbrev pub is_supported : TraversalDirection → Bool
is_supported (traverse_other text) = false
is_supported _ = true

-- `snapshot_given`: the snapshot has a workspace and a version.
unfoldable pub traverse : Bool → Reads → TraversalRequest → Result QueryError TraversalResult
unfolding traverse_from
traverse snapshot_given reads request = elim request.max_depth [
  | negsuc n ↦ err request_invalid
  | pos depth ↦ elim request.max_nodes [
    | negsuc n ↦ err request_invalid
    | pos limit ↦
        if not snapshot_given || is_empty request.start_node_ids || limit == 0
        then err request_invalid
        else if not (is_supported request.direction)
        then err request_invalid
        else reads.read_scoped_node_ids request.project_ids >>= λ scoped.
            traverse_from reads request.direction request.relations scoped limit depth
              request.start_node_ids
  ]
]
