-- ===== src/Query/Find/Examples.antt =====
-- query/path.go: FindPathSnapshot over a small store.
use agent_graph.Prelude.{bytes, [], ◌∷◌, none, some, ok, err, true, false, ◌≡◌, refl, str_eq}
use agent_graph.Prelude.Int.{pos, ℤ-discrete}
use agent_graph.Query.Types.{request_invalid, NodeLookup, Traverser, PathRequest}
use agent_graph.Query.Path.{PathResult, no_path}
use agent_graph.Query.Path.Examples.{evaluates, square, file, calls}
use agent_graph.Query.Find.{path_endpoint_matches, path_between, find_between, find_path_snapshot}
use agent_graph.Query.Find.Found.{IsFound, find_path_snapshot-IsFound}

-- Evaluates the component.
run : Unit {0}
unfolding evaluates path_endpoint_matches path_between find_between find_path_snapshot ℤ-discrete
run = tt

-- A lookup that finds the node of the text, and no others.
abbrev pub lookup : NodeLookup
lookup = record {
  lookup_nodes = λ text limit. ok (record { node = file text } ∷ []);
  lookup_exact_nodes = some (λ text. ok []);
}

abbrev pub traverse : Traverser
traverse request = ok (record { facts = square; truncation_reasons = []; scope_boundary = none })

abbrev pub request : PathRequest
request = record {
  source = bytes "d";
  target = bytes "b";
  allow_undirected_fallback = true;
  project_ids = [];
  relations = [];
  max_depth = pos 4;
  max_nodes = pos 10;
}

abbrev pub found : PathResult
found = record no_path {
  nodes = file (bytes "d") ∷ file (bytes "c") ∷ file (bytes "b") ∷ [];
  edges = calls (bytes "c") (bytes "d") ∷ calls (bytes "b") (bytes "c") ∷ [];
  used_undirected_fallback = true;
  undirected_fallback_attempted = true;
}

find_path_snapshot-back : find_path_snapshot (some lookup) (some traverse) request ≡ ok found
unfolding run
find_path_snapshot-back = refl

find_path_snapshot-forbidden :
    find_path_snapshot
      (some lookup)
      (some traverse)
      (record request { allow_undirected_fallback = false })
    ≡ ok no_path
unfolding run
find_path_snapshot-forbidden = refl

find_path_snapshot-invalid :
    find_path_snapshot (some lookup) (some traverse) (record request { max_nodes = pos 0 })
    ≡ err request_invalid
unfolding run
find_path_snapshot-invalid = refl

find_path_snapshot-IsFound_example : IsFound lookup traverse request found
find_path_snapshot-IsFound_example =
    find_path_snapshot-IsFound lookup traverse request found find_path_snapshot-back (λ e. cc)
