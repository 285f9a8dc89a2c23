-- ===== src/Query/Path/Examples.antt =====
-- query/path.go on a square with a tail: two ways around, and one edge against the direction.
use agent_graph.Prelude.{
  Str, bytes, [], ◌∷◌, some, true, false, ◌≡◌, refl, str_eq, Str-discrete, ℕ_discrete, str_ltb,
}
use agent_graph.Graph.Types.{Node, Edge, Facts}
use agent_graph.Graph.Examples.{node, evidence}
use agent_graph.Query.Path.{
  PathResult, no_path, index_nodes, index_edges, path_edge_key, insert_edge, sort_edges, follow,
  follow_all, search_from, walk_back, shortest_path,
}
use agent_graph.Query.Path.Shortest.{IsShortest, shortest_path_lem}

-- Evaluates the component.
unfoldable pub evaluates : Unit {0}
unfolding index_nodes index_edges path_edge_key insert_edge sort_edges follow follow_all search_from
    walk_back shortest_path Str-discrete ℕ_discrete str_ltb
evaluates = tt

abbrev pub file : Str → Node
file id = node id (bytes "file")

abbrev pub calls : Str → Str → Edge
calls source target = record {
  source_id = source;
  target_id = target;
  relation = bytes "calls";
  evidence = evidence;
}

abbrev pub square : Facts
square = record {
  nodes = file (bytes "a") ∷ file (bytes "b") ∷ file (bytes "c") ∷ file (bytes "d") ∷ [];
  edges =
      calls (bytes "c") (bytes "d")
      ∷ calls (bytes "b") (bytes "c")
      ∷ calls (bytes "a") (bytes "b")
      ∷ calls (bytes "a") (bytes "c")
      ∷ [];
}

-- The way over `b` has one edge more.
shortest_path-square :
    shortest_path square (bytes "a") (bytes "d") false
    ≡ some (record no_path {
      nodes = file (bytes "a") ∷ file (bytes "c") ∷ file (bytes "d") ∷ [];
      edges = calls (bytes "a") (bytes "c") ∷ calls (bytes "c") (bytes "d") ∷ [];
    })
unfolding evaluates
shortest_path-square = refl

shortest_path-against : shortest_path square (bytes "d") (bytes "b") false ≡ some no_path
unfolding evaluates
shortest_path-against = refl

shortest_path-undirected :
    shortest_path square (bytes "d") (bytes "b") true
    ≡ some (record no_path {
      nodes = file (bytes "d") ∷ file (bytes "c") ∷ file (bytes "b") ∷ [];
      edges = calls (bytes "c") (bytes "d") ∷ calls (bytes "b") (bytes "c") ∷ [];
    })
unfolding evaluates
shortest_path-undirected = refl

shortest_path_lem_example :
    (result : PathResult) × (shortest_path square (bytes "a") (bytes "d") false ≡ some result)
    × IsShortest square false (bytes "a") (bytes "d") result
shortest_path_lem_example = shortest_path_lem square (bytes "a") (bytes "d") false
