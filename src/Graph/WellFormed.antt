-- ===== src/Graph/WellFormed.antt =====
-- graph/facts.go: what NewVocabulary asks of a definition, without its loops.
use agent_graph.Prelude.{Str, List, [], str_eq, ◌≢◌, In, All, Distinct, map}
use agent_graph.Graph.Types.{RelationDefinition, VocabularyDefinition}

-- What a definition must satisfy, in its own words.
pub record IsRelation (kinds : List Str) (relation : RelationDefinition) : Type 0 where
  pub named : relation.kind ≢ []
  pub ruled : relation.endpoints ≢ []
  pub known : All (λ rule. In rule.source kinds × In rule.target kinds) relation.endpoints

pub record IsWellFormed (def : VocabularyDefinition) : Type 0 where
  pub kinds_named : All (λ kind. kind ≢ []) def.node_kinds
  pub kinds_distinct : Distinct def.node_kinds
  pub relations_sound : All (IsRelation def.node_kinds) def.relations
  pub relations_distinct : Distinct (map (λ r. r.kind) def.relations)
