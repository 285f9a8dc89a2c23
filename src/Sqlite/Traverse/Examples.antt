-- ===== src/Sqlite/Traverse/Examples.antt =====
-- A traversal of a chain of three functions, cut short by its depth, and the theorem at it.
use agent_graph.Prelude.{
  ℕ, arith, Str, bytes, List, [], ◌∷◌, true, none, some, ◌≡◌, refl, Str-discrete, ℕ_discrete,
  str_ltb, ok,
}
use agent_graph.Prelude.Int.{pos}
use agent_graph.Graph.Types.{Node, Edge, FactEvidence}
use agent_graph.GoSort
use agent_graph.GoSort.{sort_strings}
use agent_graph.Query.Types.{
  TraversalRequest, TraversalResult, traverse_outgoing, truncated_by_depth_limit,
}
use agent_graph.Sqlite.Traverse.{
  Reads, traversal_neighbor, edge_key, add_truncation_reason, unique_sorted_strings, sorted_nodes,
  sorted_edges, follow_edges, expand_frontier, expand_rounds, has_traversable_neighbor, check_depth,
  select_starts, traverse_from, traverse,
}
use agent_graph.Sqlite.Traverse.Selected.{IsWithin}
use agent_graph.Sqlite.Traverse.Returns.{Returns, Answers, traverse-Returns}
use agent_graph.Sqlite.Traverse.Rounds.{NamesNodes}
use agent_graph.Sqlite.Traverse.Bounds.{traverse-IsWithin}

unfoldable run : Unit {0}
unfolding traversal_neighbor edge_key add_truncation_reason unique_sorted_strings sorted_nodes
    sorted_edges follow_edges expand_frontier expand_rounds has_traversable_neighbor check_depth
    select_starts traverse_from traverse sort_strings GoSort.sort_slice GoSort.insert Str-discrete
    ℕ_discrete str_ltb
run = tt

abbrev evidence : FactEvidence
evidence = record {
  span = record {
    path = bytes "a.go";
    start_line = pos 1;
    start_column = pos 1;
    end_line = pos 1;
    end_column = pos 2;
  };
  file_hash = bytes "h";
  extractor = bytes "go";
  provenance = bytes "syntax";
  confidence = bytes "extracted";
}

abbrev node : Str → Node
node id = record {
  id = id;
  kind = bytes "function";
  label = id;
  qualified_name = id;
  evidence = evidence;
}

abbrev call : Str → Str → Edge
call source target = record {
  source_id = source;
  target_id = target;
  relation = bytes "calls";
  evidence = evidence;
}

abbrev chain : Reads
chain = record {
  read_node = λ id. ok (some (node id));
  read_incident_edges = λ id. ok (call (bytes "f") (bytes "g") ∷ call (bytes "g") (bytes "h") ∷ []);
  read_scoped_node_ids = λ ids. ok [];
}

abbrev request : TraversalRequest
request = record {
  start_node_ids = bytes "f" ∷ [];
  project_ids = [];
  direction = traverse_outgoing;
  relations = bytes "calls" ∷ [];
  max_depth = pos 1;
  max_nodes = pos 5;
}

abbrev result : TraversalResult
result = record {
  facts = record {
    nodes = node (bytes "f") ∷ node (bytes "g") ∷ [];
    edges = call (bytes "f") (bytes "g") ∷ [];
  };
  truncation_reasons = truncated_by_depth_limit ∷ [];
  scope_boundary = none;
}

traverse-chain : traverse true chain request ≡ ok result
unfolding run
traverse-chain = refl

chain-NamesNodes : NamesNodes chain
chain-NamesNodes id n h = ground (arith, h)

traverse-IsWithin_example :
    (depth : ℕ) × (limit : ℕ) × (scoped : List Str) × (request.max_depth ≡ pos depth)
    × (request.max_nodes ≡ pos limit)
    × (chain.read_scoped_node_ids request.project_ids ≡ ok scoped)
    × IsWithin chain request.direction request.relations scoped limit request.start_node_ids depth
        result
traverse-IsWithin_example =
    traverse-IsWithin true chain request result chain-NamesNodes traverse-chain

chain-Answers : Answers chain
chain-Answers = record {
  read_node = λ id. (some (node id), refl);
  read_incident_edges =
      λ id. (call (bytes "f") (bytes "g") ∷ call (bytes "g") (bytes "h") ∷ [], refl);
}

traverse-Returns_example : Returns (traverse true chain request)
traverse-Returns_example =
    traverse-Returns chain request 1 4 [] chain-Answers refl refl refl refl refl (λ id n i h. refl)
