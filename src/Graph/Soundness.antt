-- ===== src/Graph/Soundness.antt =====
-- graph/facts.go: Vocabulary.Validate accepts exactly the consistent facts.
use agent_graph.Prelude.{
  Str, List, [], ◌∷◌, none, some, ok, str_eq, lookup, ◌≡◌, ◌↔◌, In, All, true, inl, inr, arith,
  refl, Option-cases, All-not-In-nil, Result-cases, Str-discrete,
}
use agent_graph.Graph.Types.{Node, Edge, Facts, EndpointRule}
use agent_graph.Graph.Vocabulary.{Vocabulary}
use agent_graph.Graph.Validate.{collect_nodes, endpoint_allowed, check_edge, check_edges, validate}
use agent_graph.Graph.Consistent.{IsEdge, IsConsistent}
use agent_graph.Graph.Evidence.{validate_evidence_iff}
use agent_graph.Graph.NodeTable.{collect_nodes-IsFresh, IsFresh-collect_nodes, lookup-collect_nodes}

-- A rule is found exactly if one of the list fits.
pub endpoint_allowed_iff :
    (source target : Str) (rules : List EndpointRule)
    → (endpoint_allowed source target rules ≡ true)
      ↔ ((rule : EndpointRule) × In rule rules × (rule.source ≡ source) × (rule.target ≡ target))
unfolding endpoint_allowed
endpoint_allowed_iff source target [] = (λ h. cc, λ h. elim h.1 [ ])
endpoint_allowed_iff source target (r ∷ rules) =
    let e = endpoint_allowed_iff source target rules in
    (
      λ h. elim (Str-discrete r.source source) [
        | yes a ↦ elim (Str-discrete r.target target) [
          | yes b ↦ (r, inl refl, a, b)
          | no b ↦ let (x, i, p, q) = e.0 (ground arith) in (x, inr i, p, q)
        ]
        | no a ↦ let (x, i, p, q) = e.0 (ground arith) in (x, inr i, p, q)
      ],
      λ (x, i, a, b). elim i [
        | inl here ↦ ground arith
        | inr there ↦ ground (arith, e.1 (x, there, a, b))
      ],
    )

module _ (v : Vocabulary) (nodes : List Node) (m : List (Str × Str))
    (table : collect_nodes v [] nodes ≡ ok m) where
  kind_of :
      (id kind : Str)
      → lookup id m ≡ some kind
      → (node : Node) × In node nodes × (node.id ≡ id) × (node.kind ≡ kind)
  kind_of id kind h = elim ((lookup-collect_nodes v [] nodes m table id kind).0 h) [
    | inl none_there ↦ cc
    | inr found ↦ found
  ]

  kind_of_node : (node : Node) → In node nodes → lookup node.id m ≡ some node.kind
  kind_of_node node i =
      (lookup-collect_nodes v [] nodes m table node.id node.kind).1 (inr (node, i, refl, refl))

  pub check_edge-IsEdge : (edge : Edge) → check_edge v m edge ≡ none → IsEdge v nodes edge
  unfolding check_edge
  check_edge-IsEdge edge h = elim (Option-cases (lookup edge.relation v.relations)) [
    | inl missing ↦ ground arith
    | inr (relation, registered) ↦ elim (Option-cases (lookup edge.source_id m)) [
      | inl missing ↦ ground arith
      | inr (source_kind, source_found) ↦ elim (Option-cases (lookup edge.target_id m)) [
        | inl missing ↦ ground arith
        | inr (target_kind, target_found) ↦
            let (source, source_known, source_named, source_kinded) = kind_of _ _ source_found in
            let (target, target_known, target_named, target_kinded) = kind_of _ _ target_found in
            let (rule, rule_known, rule_source, rule_target) =
              (endpoint_allowed_iff source_kind target_kind relation.endpoints).0 (ground arith) in
            record {
              relation = relation;
              registered = registered;
              witnessed = (validate_evidence_iff edge.evidence).0 (ground arith);
              source = source;
              source_known = source_known;
              source_named = source_named;
              target = target;
              target_known = target_known;
              target_named = target_named;
              rule = rule;
              rule_known = rule_known;
              rule_source = cc;
              rule_target = cc;
            }
      ]
    ]
  ]

  pub IsEdge-check_edge : (edge : Edge) → IsEdge v nodes edge → check_edge v m edge ≡ none
  unfolding check_edge
  IsEdge-check_edge edge w = ground (
    arith,
    w.registered,
    (validate_evidence_iff edge.evidence).1 w.witnessed,
    kind_of_node w.source w.source_known,
    kind_of_node w.target w.target_known,
    w.source_named,
    w.target_named,
    (endpoint_allowed_iff w.source.kind w.target.kind w.relation.endpoints).1
        (w.rule, w.rule_known, w.rule_source, w.rule_target),
  )

  pub check_edges_iff :
      (edges : List Edge) → (check_edges v m edges ≡ none) ↔ All (IsEdge v nodes) edges
  unfolding check_edges
  check_edges_iff [] = (λ _. tt, λ _. refl)
  check_edges_iff (edge ∷ edges) =
      let e = check_edges_iff edges in
      (
        λ h. (check_edge-IsEdge edge (ground arith), e.0 (ground arith)),
        λ w. rw (IsEdge-check_edge edge w.0) (e.1 w.1),
      )

-- `Validate` returns nil exactly on the consistent facts: every node has an id, a registered kind and
-- whole evidence; no two nodes share an id; and every edge has a registered relation, whole evidence, two
-- nodes of the facts as its ends, and a rule of its relation for the kinds of the two.
pub validate_iff :
    (v : Vocabulary) (facts : Facts) → (validate v facts ≡ none) ↔ IsConsistent v facts
unfolding validate
validate_iff v facts = (
  λ h. elim (Result-cases (collect_nodes v [] facts.nodes)) [
    | inl (m, table) ↦
        let f = collect_nodes-IsFresh v [] facts.nodes m table in
        record {
          nodes_sound = f.sound;
          ids_distinct = f.distinct;
          edges_sound = (check_edges_iff v facts.nodes m table facts.edges).0 (ground arith);
        }
    | inr (code, fault) ↦ ground arith
  ],
  λ w.
      let (m, table) = IsFresh-collect_nodes v [] facts.nodes (record {
        sound = w.nodes_sound;
        distinct = w.ids_distinct;
        unseen = All-not-In-nil (λ n. n.id) facts.nodes;
      }) in
      ground (arith, table, (check_edges_iff v facts.nodes m table facts.edges).1 w.edges_sound),
)
