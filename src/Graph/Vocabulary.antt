-- ===== src/Graph/Vocabulary.antt =====
-- graph/facts.go: NewVocabulary. Each loop is a recursion over its list; the maps are passed along.
use agent_graph.Prelude.{
  Str, List, [], ◌∷◌, Option, none, some, Result, ok, err, ◌>>=◌, ◌then◌, unless, if◌then◌else◌,
  ◌==◌, str_eq, mem, lookup, is_empty,
}
use agent_graph.Graph.Types.{
  EndpointRule, RelationDefinition, VocabularyDefinition, ValidationCode, unknown_node_kind,
  empty_node_kind, duplicate_node_kind, empty_relation_kind, duplicate_relation_kind,
  empty_relation_endpoints,
}

pub record Vocabulary : Type 0 where
  pub node_kinds : List Str
  pub relations : List (Str × RelationDefinition)

-- The first loop: `seen` is the map that it fills.
unfoldable pub add_node_kinds : List Str → List Str → Result ValidationCode (List Str)
add_node_kinds seen [] = ok seen
add_node_kinds seen (kind ∷ kinds) =
    if kind == []
    then err empty_node_kind
    else if mem kind seen
    then err duplicate_node_kind
    else add_node_kinds (kind ∷ seen) kinds

unfoldable pub check_endpoints : List Str → List EndpointRule → Option ValidationCode
check_endpoints kinds [] = none
check_endpoints kinds (rule ∷ rules) =
    if mem rule.source kinds
    then if mem rule.target kinds then check_endpoints kinds rules else some unknown_node_kind
    else some unknown_node_kind

unfoldable pub check_relation :
    List Str → List (Str × RelationDefinition) → RelationDefinition → Option ValidationCode
check_relation kinds relations relation =
    if relation.kind == []
    then some empty_relation_kind
    else elim (lookup relation.kind relations) [
      | some _ ↦ some duplicate_relation_kind
      | none ↦
          if is_empty relation.endpoints
          then some empty_relation_endpoints
          else check_endpoints kinds relation.endpoints
    ]

unfoldable pub add_relations :
    List Str
    → List (Str × RelationDefinition)
    → List RelationDefinition
    → Result ValidationCode (List (Str × RelationDefinition))
add_relations kinds relations [] = ok relations
add_relations kinds relations (relation ∷ rest) =
    unless (check_relation kinds relations relation)
      (add_relations kinds ((relation.kind, relation) ∷ relations) rest)

unfoldable pub new_vocabulary : VocabularyDefinition → Result ValidationCode Vocabulary
new_vocabulary def = do
  kinds ← add_node_kinds [] def.node_kinds
  relations ← add_relations kinds [] def.relations
  ok (record { node_kinds = kinds; relations = relations })
