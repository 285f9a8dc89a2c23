-- ===== src/Graph/Admission.antt =====
-- graph/facts.go: which definitions NewVocabulary accepts, and what the vocabulary then holds.
use agent_graph.Prelude.{
  Str, List, [], some, ok, ◌>>=◌, str_eq, mem, lookup, true, ◌≡◌, ◌↔◌, In, All-map, All-not-In-nil,
  arith, mem→In, In→mem, inr,
}
use agent_graph.Graph.Types.{RelationDefinition, VocabularyDefinition}
use agent_graph.Graph.Vocabulary.{Vocabulary, add_node_kinds, add_relations, new_vocabulary}
use agent_graph.Graph.WellFormed.{IsRelation, IsWellFormed}
use agent_graph.Graph.Loops.{
  add_node_kinds-IsFresh, IsFresh-add_node_kinds, In-add_node_kinds, add_relations-IsFresh,
  IsFresh-add_relations, lookup-add_relations,
}

IsRelation-mono :
    (kinds more : List Str) (r : RelationDefinition)
    → ((k : Str) → In k kinds → In k more)
    → IsRelation kinds r
    → IsRelation more r
IsRelation-mono kinds more r sub s = record {
  named = s.named;
  ruled = s.ruled;
  known =
      All-map (λ rule. In rule.source kinds × In rule.target kinds)
        (λ rule. In rule.source more × In rule.target more) r.endpoints
        (λ rule h. (sub _ h.0, sub _ h.1)) s.known;
}

new_vocabulary-parts :
    (def : VocabularyDefinition) (v : Vocabulary)
    → new_vocabulary def ≡ ok v
    → (add_node_kinds [] def.node_kinds ≡ ok v.node_kinds)
      × (add_relations v.node_kinds [] def.relations ≡ ok v.relations)
unfolding new_vocabulary
new_vocabulary-parts def v h = (ground arith, ground arith)

In-new_vocabulary :
    (def : VocabularyDefinition) (kinds : List Str)
    → add_node_kinds [] def.node_kinds ≡ ok kinds
    → (k : Str) → In k kinds ↔ In k def.node_kinds
In-new_vocabulary def kinds h k =
    let e = In-add_node_kinds [] def.node_kinds kinds h k in
    (λ i. ground (arith, e.0 i), λ i. e.1 (inr i))

new_vocabulary-IsWellFormed :
    (def : VocabularyDefinition) (v : Vocabulary) → new_vocabulary def ≡ ok v → IsWellFormed def
new_vocabulary-IsWellFormed def v h =
    let (hk, hr) = new_vocabulary-parts def v h in
    let f = add_node_kinds-IsFresh [] def.node_kinds v.node_kinds hk in
    let g = add_relations-IsFresh v.node_kinds [] def.relations v.relations hr in
    record {
      kinds_named = f.named;
      kinds_distinct = f.distinct;
      relations_sound =
          All-map (IsRelation v.node_kinds) (IsRelation def.node_kinds) def.relations
            (λ r. IsRelation-mono _ _ r (λ k. (In-new_vocabulary def v.node_kinds hk k).0)) g.sound;
      relations_distinct = g.distinct;
    }

IsWellFormed-new_vocabulary :
    (def : VocabularyDefinition) → IsWellFormed def → (v : Vocabulary) × (new_vocabulary def ≡ ok v)
unfolding new_vocabulary
IsWellFormed-new_vocabulary def w =
    let (kinds, hk) = IsFresh-add_node_kinds [] def.node_kinds (record {
      named = w.kinds_named;
      distinct = w.kinds_distinct;
      unseen = All-not-In-nil (λ k. k) def.node_kinds;
    }) in
    let (relations, hr) = IsFresh-add_relations kinds [] def.relations (record {
      sound =
          All-map (IsRelation def.node_kinds) (IsRelation kinds) def.relations
            (λ r. IsRelation-mono _ _ r (λ k. (In-new_vocabulary def kinds hk k).1))
            w.relations_sound;
      distinct = w.relations_distinct;
      unseen = All-not-In-nil (λ r. r.kind) def.relations;
    }) in
    (record { node_kinds = kinds; relations = relations }, rw (hk, ◌>>=◌) (rw hr))

-- `NewVocabulary` succeeds exactly on the well-formed definitions: the node kinds are not empty and
-- differ from one another, the relation kinds too, and each relation has endpoint rules, all between
-- kinds of the definition.
pub new_vocabulary_iff :
    (def : VocabularyDefinition)
    → ((v : Vocabulary) × (new_vocabulary def ≡ ok v)) ↔ IsWellFormed def
new_vocabulary_iff def =
    (λ h. new_vocabulary-IsWellFormed def h.0 h.1, IsWellFormed-new_vocabulary def)

-- A vocabulary that `NewVocabulary` returns registers exactly the node kinds of its definition, and
-- finds under a kind exactly the relation that the definition gives that kind.
pub new_vocabulary-content :
    (def : VocabularyDefinition) (v : Vocabulary)
    → new_vocabulary def ≡ ok v
    → ((k : Str) → (mem k v.node_kinds ≡ true) ↔ In k def.node_kinds)
      × ((k : Str) (r : RelationDefinition)
          → (lookup k v.relations ≡ some r) ↔ (In r def.relations × (r.kind ≡ k)))
new_vocabulary-content def v h =
    let (hk, hr) = new_vocabulary-parts def v h in
    (
      λ k.
          let e = In-new_vocabulary def v.node_kinds hk k in
          (λ t. e.0 (mem→In k v.node_kinds t), λ i. In→mem k v.node_kinds (e.1 i)),
      λ k r.
          let e = lookup-add_relations v.node_kinds [] def.relations v.relations hr k r in
          (λ l. ground (arith, e.0 l), λ i. e.1 (inr i)),
    )
