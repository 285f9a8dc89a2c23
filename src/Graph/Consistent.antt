-- ===== src/Graph/Consistent.antt =====
-- graph/facts.go: what Vocabulary.Validate asks of the facts, without its loops and its map.
use agent_graph.Prelude.{
  Str, List, [], ◌∷◌, some, str_eq, lookup, ◌≡◌, ◌≢◌, In, All, Distinct, map, ◌⊎◌,
}
use agent_graph.Prelude.Int.{pos, ◌≤ℤ◌, ◌<ℤ◌}
use agent_graph.Graph.Types.{
  SourceSpan, FactEvidence, Node, Edge, Facts, EndpointRule, RelationDefinition,
  confidence_extracted, confidence_inferred, confidence_ambiguous,
}
use agent_graph.Graph.Vocabulary.{Vocabulary}

-- Every part is given, and lines and columns count from one.
pub record IsComplete (evidence : FactEvidence) : Type 0 where
  pub placed : evidence.span.path ≢ []
  pub start_line : pos 1 ≤ℤ evidence.span.start_line
  pub start_column : pos 1 ≤ℤ evidence.span.start_column
  pub end_line : pos 1 ≤ℤ evidence.span.end_line
  pub end_column : pos 1 ≤ℤ evidence.span.end_column
  pub hashed : evidence.file_hash ≢ []
  pub extracted : evidence.extractor ≢ []
  pub provenanced : evidence.provenance ≢ []

-- The span does not end before it starts.
abbrev pub IsOrdered : SourceSpan → Type 0
IsOrdered span =
    (span.start_line <ℤ span.end_line)
    ⊎ ((span.start_line ≡ span.end_line) × (span.start_column ≤ℤ span.end_column))

abbrev pub IsConfidence : Str → Type 0
IsConfidence c = In c (confidence_extracted ∷ confidence_inferred ∷ confidence_ambiguous ∷ [])

pub record IsEvidence (evidence : FactEvidence) : Type 0 where
  pub complete : IsComplete evidence
  pub ordered : IsOrdered evidence.span
  pub trusted : IsConfidence evidence.confidence

pub record IsNode (v : Vocabulary) (node : Node) : Type 0 where
  pub identified : node.id ≢ []
  pub registered : In node.kind v.node_kinds
  pub witnessed : IsEvidence node.evidence

-- The edge joins two of the nodes by a registered relation that has a rule for their kinds.
pub record IsEdge (v : Vocabulary) (nodes : List Node) (edge : Edge) : Type 0 where
  pub relation : RelationDefinition
  pub registered : lookup edge.relation v.relations ≡ some relation
  pub witnessed : IsEvidence edge.evidence
  pub source : Node
  pub source_known : In source nodes
  pub source_named : source.id ≡ edge.source_id
  pub target : Node
  pub target_known : In target nodes
  pub target_named : target.id ≡ edge.target_id
  pub rule : EndpointRule
  pub rule_known : In rule relation.endpoints
  pub rule_source : rule.source ≡ source.kind
  pub rule_target : rule.target ≡ target.kind

pub record IsConsistent (v : Vocabulary) (facts : Facts) : Type 0 where
  pub nodes_sound : All (IsNode v) facts.nodes
  pub ids_distinct : Distinct (map (λ node. node.id) facts.nodes)
  pub edges_sound : All (IsEdge v facts.nodes) facts.edges
