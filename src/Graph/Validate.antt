-- ===== src/Graph/Validate.antt =====
-- graph/facts.go: Vocabulary.Validate and validateEvidence. A Go `error` is an option: `none` is nil.
use agent_graph.Prelude.{
  Str, List, [], ◌∷◌, Option, none, some, Result, ok, err, ◌then◌, unless, if◌then◌else◌, ◌==◌,
  str_eq, mem, lookup, Bool, false, ◌&&◌, ◌||◌, not,
}
use agent_graph.Prelude.Int.{pos, ltb_ℤ, int_eq}
use agent_graph.Graph.Types.{
  SourceSpan, FactEvidence, Node, Edge, Facts, EndpointRule, ValidationCode, confidence_extracted,
  confidence_inferred, confidence_ambiguous, unknown_node_kind, unknown_relation_kind,
  invalid_relation_endpoint, missing_source_node, missing_target_node, duplicate_node_id,
  empty_node_id, missing_fact_evidence, invalid_fact_confidence, invalid_source_span,
}
use agent_graph.Graph.Vocabulary.{Vocabulary}

unfoldable pub is_incomplete : FactEvidence → Bool
is_incomplete evidence =
    evidence.span.path == []
    || ltb_ℤ evidence.span.start_line (pos 1)
    || ltb_ℤ evidence.span.start_column (pos 1)
    || ltb_ℤ evidence.span.end_line (pos 1)
    || ltb_ℤ evidence.span.end_column (pos 1)
    || evidence.file_hash == []
    || evidence.extractor == []
    || evidence.provenance == []

unfoldable pub starts_after_end : SourceSpan → Bool
starts_after_end span =
    ltb_ℤ span.end_line span.start_line
    || (span.start_line == span.end_line && ltb_ℤ span.end_column span.start_column)

unfoldable pub is_unsupported_confidence : Str → Bool
is_unsupported_confidence confidence =
    not (confidence == confidence_extracted)
    && not (confidence == confidence_inferred)
    && not (confidence == confidence_ambiguous)

unfoldable pub validate_evidence : FactEvidence → Option ValidationCode
validate_evidence evidence =
    if is_incomplete evidence
    then some missing_fact_evidence
    else if starts_after_end evidence.span
    then some invalid_source_span
    else if is_unsupported_confidence evidence.confidence
    then some invalid_fact_confidence
    else none

-- The body of the loop over the nodes, up to the assignment to `nodeKindsByID`.
unfoldable pub check_node : Vocabulary → List (Str × Str) → Node → Option ValidationCode
check_node v kinds_by_id node =
    if node.id == []
    then some empty_node_id
    else if not (mem node.kind v.node_kinds)
    then some unknown_node_kind
    else validate_evidence node.evidence
      then elim (lookup node.id kinds_by_id) [ some _ ↦ some duplicate_node_id | none ↦ none ]

-- The first loop: it returns `nodeKindsByID`.
unfoldable pub collect_nodes :
    Vocabulary → List (Str × Str) → List Node → Result ValidationCode (List (Str × Str))
collect_nodes v kinds_by_id [] = ok kinds_by_id
collect_nodes v kinds_by_id (node ∷ nodes) =
    unless (check_node v kinds_by_id node)
      (collect_nodes v ((node.id, node.kind) ∷ kinds_by_id) nodes)

-- The search for a rule, with its `break`.
unfoldable pub endpoint_allowed : Str → Str → List EndpointRule → Bool
endpoint_allowed source_kind target_kind [] = false
endpoint_allowed source_kind target_kind (rule ∷ rules) =
    (rule.source == source_kind && rule.target == target_kind)
    || endpoint_allowed source_kind target_kind rules

unfoldable pub check_edge : Vocabulary → List (Str × Str) → Edge → Option ValidationCode
check_edge v kinds_by_id edge = elim (lookup edge.relation v.relations) [
  | none ↦ some unknown_relation_kind
  | some relation ↦ validate_evidence edge.evidence then elim (lookup edge.source_id kinds_by_id) [
    | none ↦ some missing_source_node
    | some source_kind ↦ elim (lookup edge.target_id kinds_by_id) [
      | none ↦ some missing_target_node
      | some target_kind ↦
          if endpoint_allowed source_kind target_kind relation.endpoints
          then none
          else some invalid_relation_endpoint
    ]
  ]
]

unfoldable pub check_edges : Vocabulary → List (Str × Str) → List Edge → Option ValidationCode
check_edges v kinds_by_id [] = none
check_edges v kinds_by_id (edge ∷ edges) =
    check_edge v kinds_by_id edge then check_edges v kinds_by_id edges

unfoldable pub validate : Vocabulary → Facts → Option ValidationCode
validate v facts = elim (collect_nodes v [] facts.nodes) [
  | err code ↦ some code
  | ok kinds_by_id ↦ check_edges v kinds_by_id facts.edges
]
