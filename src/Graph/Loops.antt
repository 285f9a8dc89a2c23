-- ===== src/Graph/Loops.antt =====
-- graph/facts.go: the two loops of NewVocabulary.
use agent_graph.Prelude.{
  Str, List, [], ◌∷◌, none, some, ok, str_eq, lookup, ◌≡◌, ◌≢◌, ◌↔◌, In, All, Distinct, map, arith,
  refl, All-unseen-cons, All-unseen-cons_self, mem→In, In→mem, lookup-none, not-In→lookup,
  not-In→not-mem, inl, ◌⊎◌,
}
use agent_graph.Graph.Types.{EndpointRule, RelationDefinition}
use agent_graph.Graph.Vocabulary.{add_node_kinds, check_endpoints, check_relation, add_relations}
use agent_graph.Graph.WellFormed.{IsRelation}

-- The kinds that a run of the first loop still accepts.
pub record IsFresh (seen kinds : List Str) : Type 0 where
  pub named : All (λ kind. kind ≢ []) kinds
  pub distinct : Distinct kinds
  pub unseen : All (λ kind. ¬ In kind seen) kinds

add_node_kinds-step :
    (seen : List Str) (k : Str) (kinds r : List Str)
    → add_node_kinds seen (k ∷ kinds) ≡ ok r
    → (k ≢ []) × (¬ In k seen) × (add_node_kinds (k ∷ seen) kinds ≡ ok r)
unfolding add_node_kinds
add_node_kinds-step seen k kinds r h =
    (ground arith, (λ i. ground (arith, In→mem k seen i)), ground arith)

pub add_node_kinds-IsFresh :
    (seen kinds : List Str) (r : List Str) → add_node_kinds seen kinds ≡ ok r → IsFresh seen kinds
add_node_kinds-IsFresh seen [] r h = record { named = tt; distinct = tt; unseen = tt }
add_node_kinds-IsFresh seen (k ∷ kinds) r h =
    let (named, new, rest) = add_node_kinds-step seen k kinds r h in
    let f = add_node_kinds-IsFresh (k ∷ seen) kinds r rest in
    let (unseen, absent) = (All-unseen-cons_self k seen kinds).0 f.unseen in
    record { named = (named, f.named); distinct = (absent, f.distinct); unseen = (new, unseen) }

pub IsFresh-add_node_kinds :
    (seen kinds : List Str)
    → IsFresh seen kinds
    → (r : List Str) × (add_node_kinds seen kinds ≡ ok r)
unfolding add_node_kinds
IsFresh-add_node_kinds seen [] f = (seen, refl)
IsFresh-add_node_kinds seen (k ∷ kinds) f =
    let (r, e) = IsFresh-add_node_kinds (k ∷ seen) kinds (record {
      named = f.named.1;
      distinct = f.distinct.1;
      unseen = (All-unseen-cons_self k seen kinds).1 (f.unseen.1, f.distinct.0);
    }) in
    (r, ground (arith, f.named.0, not-In→not-mem k seen f.unseen.0))

-- The map holds what it held and the new kinds.
pub In-add_node_kinds :
    (seen kinds : List Str) (r : List Str)
    → add_node_kinds seen kinds ≡ ok r
    → (k : Str) → In k r ↔ (In k seen ⊎ In k kinds)
unfolding add_node_kinds
In-add_node_kinds seen [] r h k = (λ i. inl (ground arith), λ i. ground arith)
In-add_node_kinds seen (x ∷ kinds) r h k =
    let e = In-add_node_kinds (x ∷ seen) kinds r (add_node_kinds-step seen x kinds r h).2 k in
    ground (arith, e.0, e.1)

check_endpoints_iff :
    (kinds : List Str) (rules : List EndpointRule)
    → (check_endpoints kinds rules ≡ none)
      ↔ All (λ rule. In rule.source kinds × In rule.target kinds) rules
unfolding check_endpoints
check_endpoints_iff kinds [] = (λ _. tt, λ _. refl)
check_endpoints_iff kinds (rule ∷ rules) =
    let ih = check_endpoints_iff kinds rules in
    (
      λ h. ground (arith, mem→In rule.source kinds, mem→In rule.target kinds, ih.0),
      λ h. ground (arith, In→mem rule.source kinds, In→mem rule.target kinds, ih.1),
    )

pub record IsFreshRelations (kinds : List Str) (seen : List (Str × RelationDefinition))
    (relations : List RelationDefinition) : Type 0 where
  pub sound : All (IsRelation kinds) relations
  pub distinct : Distinct (map (λ r. r.kind) relations)
  pub unseen : All (λ r. ¬ In r.kind (map (λ p. p.0) seen)) relations

module _ (kinds : List Str) where
  check_relation_iff :
      (seen : List (Str × RelationDefinition)) (r : RelationDefinition)
      → (check_relation kinds seen r ≡ none)
        ↔ (IsRelation kinds r × (¬ In r.kind (map (λ p. p.0) seen)))
  unfolding check_relation
  check_relation_iff seen r = (
    λ h. (
      record {
        named = ground arith;
        ruled = ground arith;
        known = (check_endpoints_iff kinds r.endpoints).0 (ground arith);
      },
      lookup-none r.kind seen (ground arith),
    ),
    λ h.
        ground (
          arith,
          not-In→lookup r.kind seen h.1,
          (check_endpoints_iff kinds r.endpoints).1 h.0.known,
        ),
  )

  add_relations-step :
      (seen : List (Str × RelationDefinition)) (r : RelationDefinition)
      (rest : List RelationDefinition) (m : List (Str × RelationDefinition))
      → add_relations kinds seen (r ∷ rest) ≡ ok m
      → (check_relation kinds seen r ≡ none)
        × (add_relations kinds ((r.kind, r) ∷ seen) rest ≡ ok m)
  unfolding add_relations
  add_relations-step seen r rest m h = ground arith

  pub add_relations-IsFresh :
      (seen : List (Str × RelationDefinition)) (rs : List RelationDefinition)
      (m : List (Str × RelationDefinition))
      → add_relations kinds seen rs ≡ ok m
      → IsFreshRelations kinds seen rs
  add_relations-IsFresh seen [] m h = record { sound = tt; distinct = tt; unseen = tt }
  add_relations-IsFresh seen (r ∷ rs) m h =
      let (checked, rest) = add_relations-step seen r rs m h in
      let (sound, new) = (check_relation_iff seen r).0 checked in
      let f = add_relations-IsFresh ((r.kind, r) ∷ seen) rs m rest in
      let (unseen, absent) =
        (All-unseen-cons (λ (x : RelationDefinition). x.kind) r.kind (map (λ p. p.0) seen) rs).0
          f.unseen in
      record { sound = (sound, f.sound); distinct = (absent, f.distinct); unseen = (new, unseen) }

  pub IsFresh-add_relations :
      (seen : List (Str × RelationDefinition)) (rs : List RelationDefinition)
      → IsFreshRelations kinds seen rs
      → (m : List (Str × RelationDefinition)) × (add_relations kinds seen rs ≡ ok m)
  unfolding add_relations
  IsFresh-add_relations seen [] f = (seen, refl)
  IsFresh-add_relations seen (r ∷ rs) f =
      let (m, e) = IsFresh-add_relations ((r.kind, r) ∷ seen) rs (record {
        sound = f.sound.1;
        distinct = f.distinct.1;
        unseen =
            (All-unseen-cons (λ (x : RelationDefinition). x.kind) r.kind (map (λ p. p.0) seen) rs).1
              (f.unseen.1, f.distinct.0);
      }) in
      (m, rw ((check_relation_iff seen r).1 (f.sound.0, f.unseen.0)) e)

  -- A relation of the definition is found under its kind, and nothing else is.
  pub lookup-add_relations :
      (seen : List (Str × RelationDefinition)) (rs : List RelationDefinition)
      (m : List (Str × RelationDefinition))
      → add_relations kinds seen rs ≡ ok m
      → (k : Str) (r : RelationDefinition)
      → (lookup k m ≡ some r) ↔ ((lookup k seen ≡ some r) ⊎ (In r rs × (r.kind ≡ k)))
  unfolding add_relations
  lookup-add_relations seen [] m h k r = (λ e. inl (ground arith), λ e. ground arith)
  lookup-add_relations seen (x ∷ rs) m h k r =
      let (checked, rest) = add_relations-step seen x rs m h in
      let (sound, new) = (check_relation_iff seen x).0 checked in
      let e = lookup-add_relations ((x.kind, x) ∷ seen) rs m rest k r in
      let fresh = not-In→lookup x.kind seen new in
      (λ l. ground (arith, e.0 l, fresh), λ d. ground (arith, e.1, d, fresh))
