-- ===== src/Query/Types.antt =====
-- storage/storage.go, query/path.go, query/query.go, query/rank.go: what a query asks of a store. The store is
-- an interface of the source; the score of a match is a float that no query reads, and is left out.
use agent_graph.Prelude.{Str, List, Option, Result, Bool, ℕ}
use agent_graph.Prelude.Int.{ℤ}
use agent_graph.Graph.Types.{Node, Facts}

pub record NodeMatch : Type 0 where
  pub node : Node

-- A string in the source: one of its three constants, or another text.
pub data TraversalDirection : Type 0 where
  traverse_incoming traverse_outgoing traverse_both : TraversalDirection
  traverse_other : Str → TraversalDirection

pub record TraversalRequest : Type 0 where
  pub start_node_ids : List Str
  pub project_ids : List Str
  pub direction : TraversalDirection
  pub relations : List Str
  pub max_depth : ℤ
  pub max_nodes : ℤ

pub data TruncationReason : Type 0 where
  truncated_by_depth_limit truncated_by_node_limit : TruncationReason

pub record TraversalResult : Type 0 where
  pub facts : Facts
  pub truncation_reasons : List TruncationReason
  pub scope_boundary : Option Node

pub record Explanation : Type 0 where
  pub node : Node
  pub supporting_facts : Facts

-- Why a query fails. The texts are for people and are left out.
pub data QueryError : Type 0 where
  lookup_required traverser_required explainer_required request_invalid : QueryError
  store_failed : Str → QueryError

-- `NodeLookup` of one snapshot, and `ExactNodeLookup` if the lookup supports it.
pub record NodeLookup : Type 0 where
  pub lookup_nodes : Str → ℕ → Result QueryError (List NodeMatch)
  pub lookup_exact_nodes : Option (Str → Result QueryError (List NodeMatch))

abbrev pub Traverser : Type 0
Traverser = TraversalRequest → Result QueryError TraversalResult

abbrev pub Explainer : Type 0
Explainer = Str → Result QueryError Explanation

pub record PathRequest : Type 0 where
  pub source : Str
  pub target : Str
  pub allow_undirected_fallback : Bool
  pub project_ids : List Str
  pub relations : List Str
  pub max_depth : ℤ
  pub max_nodes : ℤ
