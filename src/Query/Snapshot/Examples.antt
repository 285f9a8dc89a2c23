-- ===== src/Query/Snapshot/Examples.antt =====
-- query/query.go over a small store.
use agent_graph.Prelude.{
  bytes, List, [], ◌∷◌, some, ok, ◌≡◌, refl, arith, str_eq, Str-discrete, ℕ_discrete, length, take,
  length-take, ap, none,
}
use agent_graph.Prelude.Int.{pos, ℤ-discrete}
use agent_graph.Query.Types.{NodeMatch, NodeLookup}
use agent_graph.Query.Path.Examples.{square, file}
use agent_graph.Query.Find.Examples.{traverse}
use agent_graph.Query.Snapshot.{
  Request, QueryResult, lookup_term_matches, rank_terms, rank_snapshot, start_node_ids,
  query_snapshot,
}
use agent_graph.Query.Snapshot.Bounds.{RespectsLimit, SeedsFor, query_snapshot-SeedsFor}

-- Evaluates the component.
run : Unit {0}
unfolding lookup_term_matches rank_terms rank_snapshot start_node_ids query_snapshot Str-discrete
    ℕ_discrete ℤ-discrete
run = tt

abbrev pub all_matches : List NodeMatch
all_matches =
    record { node = file (bytes "a") }
    ∷ record { node = file (bytes "b") }
    ∷ record { node = file (bytes "c") }
    ∷ record { node = file (bytes "d") }
    ∷ []

-- A lookup that finds every node, up to the limit.
abbrev pub generous : NodeLookup
generous = record {
  lookup_nodes = λ text limit. ok (take limit all_matches);
  lookup_exact_nodes = none;
}

abbrev pub request : Request
request = record {
  terms = bytes "x" ∷ bytes "y" ∷ [];
  project_ids = [];
  relations = [];
  max_depth = pos 1;
  max_nodes = pos 10;
}

abbrev pub answer : QueryResult
answer = record {
  seeds =
      record {
        term = bytes "x";
        nodes = file (bytes "a") ∷ file (bytes "b") ∷ file (bytes "c") ∷ [];
      }
      ∷ record {
        term = bytes "y";
        nodes = file (bytes "a") ∷ file (bytes "b") ∷ file (bytes "c") ∷ [];
      }
      ∷ [];
  facts = square;
  truncation_reasons = [];
  scope_boundary = none;
}

query_snapshot-answer : query_snapshot (some generous) (some traverse) request ≡ ok answer
unfolding run
query_snapshot-answer = refl

generous-RespectsLimit : RespectsLimit generous
generous-RespectsLimit text limit matches h =
    let e : take limit all_matches ≡ matches = ground (arith, h) in
    omega (arith, ap length e, length-take limit all_matches)

query_snapshot-SeedsFor_example : SeedsFor request.terms answer.seeds
query_snapshot-SeedsFor_example =
    query_snapshot-SeedsFor generous traverse request answer generous-RespectsLimit
      query_snapshot-answer
