-- ===== src/Graph/Examples.antt =====
-- graph/facts.go on a small graph: a project that contains a file.
use agent_graph.Prelude.{
  ℕ, Str, bytes, [], ◌∷◌, ◌++◌, none, some, ok, ◌≡◌, ◌↔◌, refl, arith, ◌⊎◌, str_eq, Str-discrete,
  mem, lookup, true, In, length, ℕ_discrete, ap,
}
use agent_graph.Prelude.Int.{pos, ℤ-discrete}
use agent_graph.Graph.Types.{
  SourceSpan, FactEvidence, Node, Facts, EndpointRule, RelationDefinition, VocabularyDefinition,
  confidence_extracted, duplicate_node_id, missing_target_node, invalid_source_span,
}
use agent_graph.Graph.Vocabulary.{
  Vocabulary, new_vocabulary, add_node_kinds, add_relations, check_relation, check_endpoints,
}
use agent_graph.Graph.Validate.{
  is_incomplete, starts_after_end, is_unsupported_confidence, validate_evidence, check_node,
  collect_nodes, endpoint_allowed, check_edge, check_edges, validate,
}
use agent_graph.Graph.WellFormed.{IsWellFormed}
use agent_graph.Graph.Consistent.{IsConsistent}
use agent_graph.Graph.Evidence.{Blames, validate_evidence-Blames}
use agent_graph.Graph.Admission.{new_vocabulary_iff, new_vocabulary-content}
use agent_graph.Graph.Soundness.{validate_iff}
use agent_graph.Graph.Distinguish.{Collision, new_node_id-injective, Fits}

-- Evaluates the component.
unfoldable pub evaluates : Unit {0}
unfolding new_vocabulary add_node_kinds add_relations check_relation check_endpoints is_incomplete
    starts_after_end is_unsupported_confidence validate_evidence check_node collect_nodes
    endpoint_allowed check_edge check_edges validate Str-discrete ℕ_discrete ℤ-discrete
evaluates = tt

abbrev pub contains_rule : EndpointRule
contains_rule = record { source = bytes "project"; target = bytes "file" }

abbrev pub contains : RelationDefinition
contains = record { kind = bytes "contains"; endpoints = contains_rule ∷ [] }

abbrev pub definition : VocabularyDefinition
definition = record { node_kinds = bytes "project" ∷ bytes "file" ∷ []; relations = contains ∷ [] }

abbrev pub vocabulary : Vocabulary
vocabulary = record {
  node_kinds = bytes "file" ∷ bytes "project" ∷ [];
  relations = (bytes "contains", contains) ∷ [];
}

abbrev pub span : SourceSpan
span = record {
  path = bytes "a.go";
  start_line = pos 1;
  start_column = pos 1;
  end_line = pos 3;
  end_column = pos 2;
}

abbrev pub evidence : FactEvidence
evidence = record {
  span = span;
  file_hash = bytes "h";
  extractor = bytes "go";
  provenance = bytes "tree";
  confidence = confidence_extracted;
}

abbrev pub backwards : FactEvidence
backwards = record evidence { span = record span { start_line = pos 4 } }

abbrev pub node : Str → Str → Node
node id kind = record { id = id; kind = kind; label = id; qualified_name = id; evidence = evidence }

abbrev pub facts : Facts
facts = record {
  nodes = node (bytes "p") (bytes "project") ∷ node (bytes "f") (bytes "file") ∷ [];
  edges =
      record {
        source_id = bytes "p";
        target_id = bytes "f";
        relation = bytes "contains";
        evidence = evidence;
      }
      ∷ [];
}

new_vocabulary-definition : new_vocabulary definition ≡ ok vocabulary
unfolding evaluates
new_vocabulary-definition = refl

validate-facts : validate vocabulary facts ≡ none
unfolding evaluates
validate-facts = refl

validate-no_nodes :
    validate vocabulary (record facts { nodes = node (bytes "p") (bytes "project") ∷ [] })
    ≡ some missing_target_node
unfolding evaluates
validate-no_nodes = refl

validate-twice :
    validate vocabulary (record facts { nodes = facts.nodes ++ facts.nodes })
    ≡ some duplicate_node_id
unfolding evaluates
validate-twice = refl

validate_evidence-backwards : validate_evidence backwards ≡ some invalid_source_span
unfolding evaluates
validate_evidence-backwards = refl

new_vocabulary-iff_example :
    ((v : Vocabulary) × (new_vocabulary definition ≡ ok v)) ↔ IsWellFormed definition
new_vocabulary-iff_example = new_vocabulary_iff definition

new_vocabulary-content_example :
    ((k : Str) → (mem k vocabulary.node_kinds ≡ true) ↔ In k definition.node_kinds)
    × ((k : Str) (r : RelationDefinition)
        → (lookup k vocabulary.relations ≡ some r) ↔ (In r definition.relations × (r.kind ≡ k)))
new_vocabulary-content_example =
    new_vocabulary-content definition vocabulary new_vocabulary-definition

validate-iff_example : (validate vocabulary facts ≡ none) ↔ IsConsistent vocabulary facts
validate-iff_example = validate_iff vocabulary facts

validate_evidence-Blames_example : Blames backwards invalid_source_span
validate_evidence-Blames_example =
    validate_evidence-Blames backwards invalid_source_span validate_evidence-backwards

-- A hash of 32 bytes: the first 32 of the message, filled up.
abbrev cut : ℕ → Str → Str
cut = elim [
  | ℕ.zero ↦ (λ m. [])
  | ℕ.suc (n → ih) ↦ (λ m. elim m [ [] ↦ 0 ∷ ih [] | b ∷ bs ↦ b ∷ ih bs ])
]

length-cut : (n : ℕ) (m : Str) → length (cut n m) ≡ n
length-cut ℕ.zero m = refl
length-cut (ℕ.suc n) [] = ap ℕ.suc (length-cut n [])
length-cut (ℕ.suc n) (b ∷ bs) = ap ℕ.suc (length-cut n bs)

span-Fits : Fits (bytes "file") span
span-Fits = omega arith

new_node_id-injective_example : (bytes "file" ≡ bytes "file") × ((span ≡ span) ⊎ Collision (cut 32))
new_node_id-injective_example =
    new_node_id-injective (cut 32) (length-cut 32) (bytes "file") (bytes "file") span span span-Fits
      span-Fits refl
