-- ===== src/Graph/NodeTable.antt =====
-- graph/facts.go: the first loop of Vocabulary.Validate and the map `nodeKindsByID` that it fills.
use agent_graph.Prelude.{
  Str, List, [], ◌∷◌, none, some, ok, str_eq, lookup, ◌≡◌, ◌↔◌, In, All, Distinct, map, ◌⊎◌, inl,
  inr, arith, refl, All-unseen-cons, In→mem, mem→In, lookup-none, not-In→lookup, Str-discrete,
}
use agent_graph.Graph.Types.{Node}
use agent_graph.Graph.Vocabulary.{Vocabulary}
use agent_graph.Graph.Validate.{check_node, collect_nodes}
use agent_graph.Graph.Consistent.{IsNode}
use agent_graph.Graph.Evidence.{validate_evidence_iff}

abbrev pub ids : List Node → List Str
ids = map (λ node. node.id)

pub record IsFreshNodes (v : Vocabulary) (seen : List (Str × Str)) (nodes : List Node)
    : Type 0 where
  pub sound : All (IsNode v) nodes
  pub distinct : Distinct (ids nodes)
  pub unseen : All (λ node. ¬ In node.id (map (λ p. p.0) seen)) nodes

module _ (v : Vocabulary) where
  pub check_node_iff :
      (seen : List (Str × Str)) (node : Node)
      → (check_node v seen node ≡ none) ↔ (IsNode v node × (¬ In node.id (map (λ p. p.0) seen)))
  unfolding check_node
  check_node_iff seen node = (
    λ h. (
      record {
        identified = ground arith;
        registered = mem→In node.kind v.node_kinds (ground arith);
        witnessed = (validate_evidence_iff node.evidence).0 (ground arith);
      },
      lookup-none node.id seen (ground arith),
    ),
    λ h. ground (
      arith,
      not-In→lookup node.id seen h.1,
      In→mem node.kind v.node_kinds h.0.registered,
      (validate_evidence_iff node.evidence).1 h.0.witnessed,
      h.0.identified,
    ),
  )

  collect_nodes-step :
      (seen : List (Str × Str)) (node : Node) (nodes : List Node) (m : List (Str × Str))
      → collect_nodes v seen (node ∷ nodes) ≡ ok m
      → (check_node v seen node ≡ none)
        × (collect_nodes v ((node.id, node.kind) ∷ seen) nodes ≡ ok m)
  unfolding collect_nodes
  collect_nodes-step seen node nodes m h = ground arith

  pub collect_nodes-IsFresh :
      (seen : List (Str × Str)) (nodes : List Node) (m : List (Str × Str))
      → collect_nodes v seen nodes ≡ ok m
      → IsFreshNodes v seen nodes
  collect_nodes-IsFresh seen [] m h = record { sound = tt; distinct = tt; unseen = tt }
  collect_nodes-IsFresh seen (node ∷ nodes) m h =
      let (checked, rest) = collect_nodes-step seen node nodes m h in
      let (sound, new) = (check_node_iff seen node).0 checked in
      let f = collect_nodes-IsFresh ((node.id, node.kind) ∷ seen) nodes m rest in
      let (unseen, absent) =
        (All-unseen-cons (λ (x : Node). x.id) node.id (map (λ p. p.0) seen) nodes).0 f.unseen in
      record { sound = (sound, f.sound); distinct = (absent, f.distinct); unseen = (new, unseen) }

  pub IsFresh-collect_nodes :
      (seen : List (Str × Str)) (nodes : List Node)
      → IsFreshNodes v seen nodes
      → (m : List (Str × Str)) × (collect_nodes v seen nodes ≡ ok m)
  unfolding collect_nodes
  IsFresh-collect_nodes seen [] f = (seen, refl)
  IsFresh-collect_nodes seen (node ∷ nodes) f =
      let (m, e) = IsFresh-collect_nodes ((node.id, node.kind) ∷ seen) nodes (record {
        sound = f.sound.1;
        distinct = f.distinct.1;
        unseen =
            (All-unseen-cons (λ (x : Node). x.id) node.id (map (λ p. p.0) seen) nodes).1
              (f.unseen.1, f.distinct.0);
      }) in
      (m, rw ((check_node_iff seen node).1 (f.sound.0, f.unseen.0)) e)

  -- Under an id the map holds the kind of the node with that id.
  pub lookup-collect_nodes :
      (seen : List (Str × Str)) (nodes : List Node) (m : List (Str × Str))
      → collect_nodes v seen nodes ≡ ok m
      → (id kind : Str)
      → (lookup id m ≡ some kind) ↔ (
          (lookup id seen ≡ some kind)
          ⊎ ((node : Node) × In node nodes × (node.id ≡ id) × (node.kind ≡ kind)))
  unfolding collect_nodes
  lookup-collect_nodes seen [] m h id kind = (λ e. inl (ground arith), λ e. ground arith)
  lookup-collect_nodes seen (x ∷ nodes) m h id kind =
      let (checked, rest) = collect_nodes-step seen x nodes m h in
      let (sound, new) = (check_node_iff seen x).0 checked in
      let e = lookup-collect_nodes ((x.id, x.kind) ∷ seen) nodes m rest id kind in
      let fresh = not-In→lookup x.id seen new in
      (
        λ l. elim (e.0 l) [
          | inl here ↦ elim (Str-discrete x.id id) [
            | yes same ↦ inr (x, inl refl, same, ground arith)
            | no other ↦ inl (ground arith)
          ]
          | inr (node, i, a, b) ↦ inr (node, inr i, a, b)
        ],
        λ d. elim d [
          | inl old ↦ e.1 (inl (ground (arith, fresh)))
          | inr (node, inl i, a, b) ↦ e.1 (inl (ground arith))
          | inr (node, inr i, a, b) ↦ e.1 (inr (node, i, a, b))
        ],
      )
