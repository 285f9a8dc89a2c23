-- ===== src/Graph/Types.antt =====
-- graph/facts.go: the fact types. Go's `int` is an integer here; kinds are strings as in the source.
use agent_graph.Prelude.{Str, bytes, List}
use agent_graph.Prelude.Int.{ℤ}

pub record SourceSpan : Type 0 where
  pub path : Str
  pub start_line : ℤ
  pub start_column : ℤ
  pub end_line : ℤ
  pub end_column : ℤ

abbrev pub confidence_extracted : Str
confidence_extracted = bytes "extracted"

abbrev pub confidence_inferred : Str
confidence_inferred = bytes "inferred"

abbrev pub confidence_ambiguous : Str
confidence_ambiguous = bytes "ambiguous"

pub record FactEvidence : Type 0 where
  pub span : SourceSpan
  pub file_hash : Str
  pub extractor : Str
  pub provenance : Str
  pub confidence : Str

pub record Node : Type 0 where
  pub id : Str
  pub kind : Str
  pub label : Str
  pub qualified_name : Str
  pub evidence : FactEvidence

pub record Edge : Type 0 where
  pub source_id : Str
  pub target_id : Str
  pub relation : Str
  pub evidence : FactEvidence

pub record Facts : Type 0 where
  pub nodes : List Node
  pub edges : List Edge

pub record EndpointRule : Type 0 where
  pub source : Str
  pub target : Str

pub record RelationDefinition : Type 0 where
  pub kind : Str
  pub endpoints : List EndpointRule

pub record VocabularyDefinition : Type 0 where
  pub node_kinds : List Str
  pub relations : List RelationDefinition

-- The codes of a `ValidationError`. Its detail is text for people and is left out.
pub data ValidationCode : Type 0 where
  unknown_node_kind unknown_relation_kind invalid_relation_endpoint : ValidationCode
  missing_source_node missing_target_node duplicate_node_id empty_node_id : ValidationCode
  empty_node_kind duplicate_node_kind empty_relation_kind duplicate_relation_kind : ValidationCode
  empty_relation_endpoints missing_fact_evidence invalid_fact_confidence : ValidationCode
  invalid_source_span : ValidationCode
