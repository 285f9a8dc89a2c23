-- ===== src/Query/Find.antt =====
-- query/path.go: FindPathSnapshot.
pub mod Found
pub mod Examples
use agent_graph.Prelude.{
  ℕ, suc, ◌-◌, Str, List, [], ◌∷◌, Option, none, some, Result, ok, err, ◌>>=◌, Bool, true, false,
  ◌==◌, str_eq, nat_eq, ◌&&◌, ◌||◌, not, if◌then◌else◌, length, take, min, map, is_empty,
}
use agent_graph.Prelude.Int.{pos, ltb_ℤ}
use agent_graph.Graph.Types.{Node, Facts}
use agent_graph.Query.Types.{
  NodeMatch, TraversalDirection, traverse_outgoing, traverse_both, TraversalRequest,
  TraversalResult, QueryError, lookup_required, traverser_required, request_invalid, NodeLookup,
  Traverser, PathRequest,
}
use agent_graph.Query.Path.{PathResult, no_path, shortest_path}

abbrev pub max_seeds_per_term : ℕ
max_seeds_per_term = 3

abbrev pub exact_or :
    List NodeMatch → Result QueryError (List NodeMatch) → Result QueryError (List NodeMatch)
exact_or matches otherwise = if is_empty matches then otherwise else ok matches

unfoldable pub path_endpoint_matches : NodeLookup → Str → Result QueryError (List NodeMatch)
path_endpoint_matches lookup endpoint = elim (lookup.lookup_exact_nodes) [
  | none ↦ lookup.lookup_nodes endpoint (suc max_seeds_per_term)
  | some exact ↦ exact endpoint >>= λ matches.
      exact_or matches (lookup.lookup_nodes endpoint (suc max_seeds_per_term))
]

abbrev pub node_matches : List NodeMatch → List Node
node_matches matches = map (λ m. m.node) matches

abbrev pub ambiguous_path_candidates : List Node → List Node
ambiguous_path_candidates nodes =
    if length nodes == 1 then [] else take (min (length nodes) max_seeds_per_term) nodes

abbrev pub path_candidate_remainder : List Node → ℕ
path_candidate_remainder nodes = if length nodes == 1 then 0 else length nodes - max_seeds_per_term

abbrev pub with_traversal_scope_boundary : PathResult → Option Node → PathResult
with_traversal_scope_boundary result none = result
with_traversal_scope_boundary result (some node) =
    if is_empty result.nodes then result else record result { scope_boundary = some node }

-- `shortestPath` always ends, so the first case does not come up.
unfoldable pub path_between : Facts → Str → Str → Bool → PathResult
path_between facts source target undirected = elim (shortest_path facts source target undirected) [
  | none ↦ no_path
  | some result ↦ result
]

abbrev pub traversal_request : PathRequest → Node → TraversalDirection → TraversalRequest
traversal_request request source direction = record {
  start_node_ids = source.id ∷ [];
  project_ids = request.project_ids;
  direction = direction;
  relations = request.relations;
  max_depth = request.max_depth;
  max_nodes = request.max_nodes;
}

abbrev pub fall_back : Node → Node → TraversalResult → PathResult
fall_back source target traversal =
    let result = path_between traversal.facts source.id target.id true in
    with_traversal_scope_boundary
      (record result {
        undirected_fallback_attempted = true;
        used_undirected_fallback = not (is_empty result.nodes);
      })
      traversal.scope_boundary

abbrev pub search_path :
    Traverser → PathRequest → Node → Node → TraversalResult → Result QueryError PathResult
search_path traverse request source target traversal =
    let result = path_between traversal.facts source.id target.id false in
    if not (is_empty result.nodes) || not request.allow_undirected_fallback
    then ok (with_traversal_scope_boundary result traversal.scope_boundary)
    else traverse (traversal_request request source traverse_both) >>= λ fallback.
        ok (fall_back source target fallback)

abbrev pub ambiguous : List Node → List Node → PathResult
ambiguous sources targets = record no_path {
  source_candidates = ambiguous_path_candidates sources;
  source_remainder_count = path_candidate_remainder sources;
  target_candidates = ambiguous_path_candidates targets;
  target_remainder_count = path_candidate_remainder targets;
}

unfoldable pub find_between :
    Traverser → PathRequest → List Node → List Node → Result QueryError PathResult
find_between traverse request (source ∷ []) (target ∷ []) =
    traverse (traversal_request request source traverse_outgoing) >>= λ traversal.
    search_path traverse request source target traversal
find_between traverse request sources targets = ok (ambiguous sources targets)

abbrev pub is_invalid : PathRequest → Bool
is_invalid request =
    request.source == []
    || request.target == []
    || ltb_ℤ request.max_depth (pos 0)
    || not (ltb_ℤ (pos 0) request.max_nodes)

-- A lookup or a traverser that is nil is `none`.
unfoldable pub find_path_snapshot :
    Option NodeLookup → Option Traverser → PathRequest → Result QueryError PathResult
find_path_snapshot none traverser request = err lookup_required
find_path_snapshot (some lookup) none request = err traverser_required
find_path_snapshot (some lookup) (some traverse) request =
    if is_invalid request
    then err request_invalid
    else path_endpoint_matches lookup request.source >>= λ sources.
        path_endpoint_matches lookup request.target >>= λ targets.
        find_between traverse request (node_matches sources) (node_matches targets)
