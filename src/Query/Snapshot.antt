-- ===== src/Query/Snapshot.antt =====
-- query/query.go and query/rank.go: QuerySnapshot, RankSnapshot and ExplainSnapshot.
pub mod Bounds
mod Examples
use agent_graph.Prelude.{
  ℕ, suc, ◌-◌, Str, List, [], ◌∷◌, ◌++◌, Option, none, some, Result, ok, err, ◌>>=◌, Bool, ◌||◌,
  not, if◌then◌else◌, length, take, min, map, is_empty,
}
use agent_graph.Prelude.Int.{ℤ, pos, ltb_ℤ}
use agent_graph.Graph.Types.{Node, Facts}
use agent_graph.Query.Types.{
  NodeMatch, traverse_outgoing, TraversalRequest, TraversalResult, TruncationReason, QueryError,
  lookup_required, traverser_required, explainer_required, request_invalid, NodeLookup, Traverser,
  Explainer, Explanation,
}
use agent_graph.Query.Find.{max_seeds_per_term, node_matches}

pub record SeedSet : Type 0 where
  pub term : Str
  pub nodes : List Node

abbrev pub cut_or :
    ℕ → List NodeMatch → Result QueryError (List NodeMatch) → Result QueryError (List NodeMatch)
cut_or limit matches otherwise =
    if is_empty matches then otherwise else ok (take (min (length matches) limit) matches)

unfoldable pub lookup_term_matches : NodeLookup → Str → ℕ → Result QueryError (List NodeMatch)
lookup_term_matches lookup term limit = elim (lookup.lookup_exact_nodes) [
  | none ↦ lookup.lookup_nodes term limit
  | some exact ↦ exact term >>= λ matches. cut_or limit matches (lookup.lookup_nodes term limit)
]

-- The loop over the terms.
unfoldable pub rank_terms : NodeLookup → List Str → Result QueryError (List SeedSet)
rank_terms lookup [] = ok []
rank_terms lookup (term ∷ terms) = lookup_term_matches lookup term max_seeds_per_term >>= λ matches.
    rank_terms lookup terms >>= λ seeds.
    ok (record { term = term; nodes = node_matches matches } ∷ seeds)

unfoldable pub rank_snapshot : Option NodeLookup → List Str → Result QueryError (List SeedSet)
rank_snapshot none terms = err lookup_required
rank_snapshot (some lookup) terms = rank_terms lookup terms

pub record ExplainResult : Type 0 where
  pub candidates : List Node
  pub remainder_count : ℕ
  pub explanation : Option Explanation

unfoldable pub explain_candidates : Explainer → List Node → Result QueryError ExplainResult
explain_candidates explain (node ∷ []) = explain node.id >>= λ explanation.
    ok (record { candidates = []; remainder_count = 0; explanation = some explanation })
explain_candidates explain candidates = ok (record {
  candidates = take (min (length candidates) max_seeds_per_term) candidates;
  remainder_count = length candidates - max_seeds_per_term;
  explanation = none;
})

unfoldable pub explain_snapshot :
    Option NodeLookup → Option Explainer → Str → Result QueryError ExplainResult
explain_snapshot lookup none term = err explainer_required
explain_snapshot none (some explain) term = err lookup_required
explain_snapshot (some lookup) (some explain) term =
    lookup_term_matches lookup term (suc max_seeds_per_term) >>= λ matches.
    explain_candidates explain (node_matches matches)

pub record Request : Type 0 where
  pub terms : List Str
  pub project_ids : List Str
  pub relations : List Str
  pub max_depth : ℤ
  pub max_nodes : ℤ

pub record QueryResult : Type 0 where
  pub seeds : List SeedSet
  pub facts : Facts
  pub truncation_reasons : List TruncationReason
  pub scope_boundary : Option Node

unfoldable pub start_node_ids : List SeedSet → List Str
start_node_ids [] = []
start_node_ids (seed_set ∷ seeds) = map (λ node. node.id) seed_set.nodes ++ start_node_ids seeds

abbrev pub query_traversal : Request → List Str → TraversalRequest
query_traversal request ids = record {
  start_node_ids = ids;
  project_ids = request.project_ids;
  direction = traverse_outgoing;
  relations = request.relations;
  max_depth = request.max_depth;
  max_nodes = request.max_nodes;
}

abbrev pub traversed_result : List SeedSet → TraversalResult → QueryResult
traversed_result seeds traversal = record {
  seeds = seeds;
  facts = traversal.facts;
  truncation_reasons = traversal.truncation_reasons;
  scope_boundary = traversal.scope_boundary;
}

abbrev pub seeds_alone : List SeedSet → QueryResult
seeds_alone seeds = record {
  seeds = seeds;
  facts = record { nodes = []; edges = [] };
  truncation_reasons = [];
  scope_boundary = none;
}

abbrev pub query_seeds : Traverser → Request → List SeedSet → Result QueryError QueryResult
query_seeds traverse request seeds =
    let ids = start_node_ids seeds in
    if is_empty ids
    then ok (seeds_alone seeds)
    else traverse (query_traversal request ids) >>= λ traversal.
        ok (traversed_result seeds traversal)

unfoldable pub query_snapshot :
    Option NodeLookup → Option Traverser → Request → Result QueryError QueryResult
query_snapshot none traverser request = err lookup_required
query_snapshot (some lookup) none request = err traverser_required
query_snapshot (some lookup) (some traverse) request =
    if is_empty request.terms
      || ltb_ℤ request.max_depth (pos 0)
      || not (ltb_ℤ (pos 0) request.max_nodes)
    then err request_invalid
    else rank_snapshot (some lookup) request.terms >>= λ seeds. query_seeds traverse request seeds
