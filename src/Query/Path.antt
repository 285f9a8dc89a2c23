-- ===== src/Query/Path.antt =====
-- query/path.go: shortestPath, a breadth-first search over the facts. A Go map is an association list.
-- `sort.Slice` is an insertion sort: Go leaves the order of edges with one key open.
pub mod Spec
mod Indexes
mod NodeIndex
mod Depth
mod Measure
mod Invariant
mod Follow
mod Ends
mod Rounds
mod Back
pub mod Shortest
pub mod Examples
use agent_graph.Prelude.{
  ℕ, zero, suc, Str, List, [], ◌∷◌, ◌++◌, Option, none, some, Bool, true, false, ◌==◌, str_eq, ◌&&◌,
  ◌||◌, if◌then◌else◌, mem, lookup, assign, length, map, str_ltb, is_some, not,
}
use agent_graph.Prelude.Int.{pos}
use agent_graph.Graph.Types.{Node, Edge, Facts}
use mathlib.Core.List.{reverse}

pub record PathResult : Type 0 where
  pub source_candidates : List Node
  pub source_remainder_count : ℕ
  pub target_candidates : List Node
  pub target_remainder_count : ℕ
  pub nodes : List Node
  pub edges : List Edge
  pub scope_boundary : Option Node
  pub used_undirected_fallback : Bool
  pub undirected_fallback_attempted : Bool

-- Go's `PathResult{}`.
abbrev pub no_path : PathResult
no_path = record {
  source_candidates = [];
  source_remainder_count = 0;
  target_candidates = [];
  target_remainder_count = 0;
  nodes = [];
  edges = [];
  scope_boundary = none;
  used_undirected_fallback = false;
  undirected_fallback_attempted = false;
}

-- The map `nodes`: of nodes with one id the last is kept.
unfoldable pub index_nodes : List (Str × Node) → List Node → List (Str × Node)
index_nodes m [] = m
index_nodes m (node ∷ nodes) = index_nodes (assign node.id node m) nodes

-- A key that is missing reads as the empty list.
abbrev pub edges_at : List (Str × List Edge) → Str → List Edge
edges_at m id = elim (lookup id m) [ none ↦ [] | some edges ↦ edges ]

abbrev pub append_edge : Str → Edge → List (Str × List Edge) → List (Str × List Edge)
append_edge id edge m = assign id (edges_at m id ++ edge ∷ []) m

abbrev pub file_edge : Bool → Edge → List (Str × List Edge) → List (Str × List Edge)
file_edge undirected edge m =
    let outgoing = append_edge edge.source_id edge m in
    if undirected then append_edge edge.target_id edge outgoing else outgoing

unfoldable pub index_edges : Bool → List (Str × List Edge) → List Edge → List (Str × List Edge)
index_edges undirected m [] = m
index_edges undirected m (edge ∷ edges) = index_edges undirected (file_edge undirected edge m) edges

unfoldable pub path_edge_key : Edge → Str
path_edge_key edge = edge.source_id ++ (0 ∷ edge.target_id) ++ (0 ∷ edge.relation)

unfoldable pub insert_edge : Edge → List Edge → List Edge
insert_edge edge [] = edge ∷ []
insert_edge edge (x ∷ xs) =
    if str_ltb (path_edge_key x) (path_edge_key edge)
    then x ∷ insert_edge edge xs
    else edge ∷ x ∷ xs

unfoldable pub sort_edges : List Edge → List Edge
unfolding insert_edge
sort_edges [] = []
sort_edges (edge ∷ edges) = insert_edge edge (sort_edges edges)

-- The variables of the search. A predecessor is a node id and the edge that leads on from it.
pub record Search : Type 0 where
  pub frontier : List Str
  pub seen : List Str
  pub predecessors : List (Str × (Str × Edge))

abbrev pub neighbor : Bool → Str → Edge → Str
neighbor undirected id edge =
    if undirected && edge.target_id == id then edge.source_id else edge.target_id

module _ (nodes : List (Str × Node)) (edges_by_source : List (Str × List Edge))
    (undirected : Bool) where
  -- The body of the loop over the edges of a node.
  unfoldable pub follow : Str → Search → Edge → Search
  follow id s edge =
      let next = neighbor undirected id edge in
      if not (is_some (lookup next nodes)) || mem next s.seen then s else record {
        frontier = s.frontier ++ next ∷ [];
        seen = next ∷ s.seen;
        predecessors = (next, (id, edge)) ∷ s.predecessors;
      }

  unfoldable pub follow_all : Str → Search → List Edge → Search
  follow_all id s [] = s
  follow_all id s (edge ∷ edges) = follow_all id (follow id s edge) edges

  -- The edges of a node, in the order in which the search follows them.
  abbrev pub edges_of : Str → List Edge
  edges_of id = sort_edges (edges_at edges_by_source id)

  -- The outer loop. Each round takes a node that was never taken before, so a round for each node is
  -- enough.
  unfoldable pub search_from : ℕ → Str → Search → Search
  search_from zero target s = s
  search_from (suc fuel) target s = elim (s.frontier) [
    | [] ↦ s
    | id ∷ rest ↦
        let further =
          search_from fuel target (follow_all id (record s { frontier = rest }) (edges_of id)) in
        if id == target then record s { frontier = rest } else further
  ]

-- The walk back over the predecessors, from the node given: the ids before it and the edges between. A node
-- without a predecessor would make Go's loop go on forever; `none` stands for that, and for the end of the
-- fuel.
unfoldable pub walk_back : ℕ → Str → List (Str × (Str × Edge)) → Str → Option (List Str × List Edge)
walk_back zero source predecessors id = none
walk_back (suc fuel) source predecessors id = elim (id == source) [
  | true ↦ some ([], [])
  | false ↦ elim (lookup id predecessors) [
    | none ↦ none
    | some (previous, edge) ↦ elim (walk_back fuel source predecessors previous) [
      | none ↦ none
      | some (ids, edges) ↦ some (previous ∷ ids, edge ∷ edges)
    ]
  ]
]

-- What Go reads under a key that is missing.
abbrev pub zero_node : Node
zero_node = record {
  id = [];
  kind = [];
  label = [];
  qualified_name = [];
  evidence = record {
    span = record {
      path = [];
      start_line = pos 0;
      start_column = pos 0;
      end_line = pos 0;
      end_column = pos 0;
    };
    file_hash = [];
    extractor = [];
    provenance = [];
    confidence = [];
  };
}

abbrev pub node_at : List (Str × Node) → Str → Node
node_at nodes id = elim (lookup id nodes) [ none ↦ zero_node | some node ↦ node ]

abbrev pub start_search : Str → Search
start_search source = record { frontier = source ∷ []; seen = source ∷ []; predecessors = [] }

-- The end of `shortestPath`, from the test of `seen`.
abbrev pub collect_path : List (Str × Node) → Str → Str → Search → Option PathResult
collect_path nodes source target s =
    if mem target s.seen
    then elim (walk_back (suc (length s.predecessors)) source s.predecessors target) [
      | none ↦ none
      | some (ids, edges) ↦ some (record no_path {
        nodes = reverse (map (node_at nodes) (target ∷ ids));
        edges = reverse edges;
      })
    ]
    else some no_path

-- `none` stands for a run that does not end.
unfoldable pub shortest_path : Facts → Str → Str → Bool → Option PathResult
shortest_path facts source target undirected =
    let nodes = index_nodes [] facts.nodes in
    let edges_by_source = index_edges undirected [] facts.edges in
    if not (is_some (lookup source nodes))
    then some no_path
    else if not (is_some (lookup target nodes))
    then some no_path
    else collect_path nodes source target (
        search_from nodes edges_by_source undirected (suc (suc (length facts.nodes))) target
          (start_search source))
