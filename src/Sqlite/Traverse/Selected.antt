-- ===== src/Sqlite/Traverse/Selected.antt =====
-- storage/sqlite/sqlite.go: what Traverse selects, edge by edge.
use agent_graph.Prelude.{
  ℕ, suc, ◌≤◌, ◌<◌, Str, List, [], ◌∷◌, ◌++◌, true, Option, some, ◌≡◌, refl, sym, ap, arith, In,
  In-append, ◌==◌, str_eq, nat_eq, Str-discrete, ◌&&◌, is_some, lookup, assign, length, map,
  lookup-assign, ok, ◌⊎◌, inl, inr, subst, Bool-cases, if_ind, ◌∙◌,
}
use agent_graph.Graph.Types.{Node, Edge}
use agent_graph.Query.Types.{TraversalDirection, TruncationReason, TraversalResult}
use agent_graph.Sqlite.Traverse.{
  Reads, out_of_edge, into_edge, traversal_neighbor, edge_key, Selection, add_edge, add_node,
  includes_relation, out_of_scope, is_selected, reach_outside, reach_inside, reach_neighbor,
}

module _ {V : Type 0} where
  length-assign : (a : Str) (v : V) (m : List (Str × V)) → length (assign a v m) ≤ suc (length m)
  length-assign a v [] = omega arith
  length-assign a v ((k, w) ∷ m) = ground (arith, length-assign a v m)

  -- An entry of the map is the one that was assigned, or an older one.
  pub In-assign :
      (a : Str) (v : V) (m : List (Str × V)) (x : Str × V)
      → In x (assign a v m)
      → (x ≡ (a, v)) ⊎ In x m
  In-assign a v [] x (inl e) = inl (sym e)
  In-assign a v [] x (inr i) = absurd i
  In-assign a v ((k, w) ∷ m) x i = elim (Str-discrete k a) [
    | yes e ↦ elim (found e i) [ inl p ↦ inl (sym p ∙ ap (λ b. (b, v)) e) | inr j ↦ inr (inr j) ]
    | no n ↦ elim (other n i) [
      | inl p ↦ inr (inl p)
      | inr j ↦ elim (In-assign a v m x j) [ inl q ↦ inl q | inr l ↦ inr (inr l) ]
    ]
  ]
    where
      found : k ≡ a → In x (assign a v ((k, w) ∷ m)) → ((k, v) ≡ x) ⊎ In x m
      found e i = ground (arith, e, i)

      other : ¬ (k ≡ a) → In x (assign a v ((k, w) ∷ m)) → ((k, w) ≡ x) ⊎ In x (assign a v m)
      other n i = ground (arith, n, i)

module _ (reads : Reads) (direction : TraversalDirection) (relations scoped : List Str)
    (limit : ℕ) where
  -- A walk over edges of the snapshot that the request includes.
  pub data Walk (start : Str) : ℕ → Str → Type 0 where
    here : Walk start 0 start
    onward :
        {n : ℕ} {id next : Str} (edges : List Edge) (edge : Edge)
        → Walk start n id
        → reads.read_incident_edges id ≡ ok edges
        → In edge edges
        → includes_relation relations edge ≡ true
        → traversal_neighbor id edge direction ≡ some next
        → Walk start (suc n) next

  module _ (start_ids : List Str) where
    abbrev pub Reached : ℕ → Str → Type 0
    Reached depth id = (start : Str) × (n : ℕ) × In start start_ids × (n ≤ depth) × Walk start n id

    -- What a result promises, whatever it was cut short by.
    pub record IsWithin (depth : ℕ) (result : TraversalResult) : Type 0 where
      pub node_count : length result.facts.nodes ≤ limit
      pub nodes : (node : Node) → In node result.facts.nodes → Reached depth node.id
      pub edges :
          (edge : Edge)
          → In edge result.facts.edges
          → In edge.source_id (map (λ (n : Node). n.id) result.facts.nodes)
            × In edge.target_id (map (λ (n : Node). n.id) result.facts.nodes)

    -- At most `limit` nodes under their ids, each reached within the depth, and edges between them.
    pub record IsSelection (depth : ℕ) (s : Selection) : Type 0 where
      pub bounded : length s.nodes ≤ limit
      pub nodes :
          (entry : Str × Node) → In entry s.nodes → (entry.1.id ≡ entry.0) × Reached depth entry.0
      pub edges :
          (entry : Str × Edge)
          → In entry s.edges
          → (is_selected entry.1.source_id s ≡ true) × (is_selected entry.1.target_id s ≡ true)
      pub next : (id : Str) → In id s.next → Reached depth id × (is_selected id s ≡ true)

    -- What was selected stays selected.
    abbrev pub Grows : Selection → Selection → Type 0
    Grows s t = (id : Str) → is_selected id s ≡ true → is_selected id t ≡ true

    pub selected_assign :
        (id other : Str) (node : Node) (nodes : List (Str × Node))
        → ((is_some (lookup id nodes) ≡ true)
            → is_some (lookup id (assign other node nodes)) ≡ true)
          × (id ≡ other → is_some (lookup id (assign other node nodes)) ≡ true)
    selected_assign id other node nodes = ground (arith, lookup-assign other id node nodes)

    abbrev pub Kept : ℕ → Selection → Selection → Type 0
    Kept depth s t = IsSelection depth t × Grows s t

    Kept-add_edge :
        (depth : ℕ) (edge : Edge) (s : Selection)
        → is_selected edge.source_id s ≡ true
        → is_selected edge.target_id s ≡ true
        → IsSelection depth s
        → Kept depth s (add_edge edge s)
    Kept-add_edge depth edge s source target h = (
      record {
        bounded = h.bounded;
        nodes = h.nodes;
        edges = λ entry i. elim (In-assign (edge_key edge) edge s.edges entry i) [
          | inl e ↦
              subst
                (λ (x : Str × Edge).
                  (is_selected x.1.source_id s ≡ true) × (is_selected x.1.target_id s ≡ true))
                (sym e) (source, target)
          | inr j ↦ h.edges entry j
        ];
        next = h.next;
      },
      λ id g. g,
    )

    pub Kept-add_node :
        (depth : ℕ) (id : Str) (node : Node) (s : Selection)
        → length s.nodes < limit
        → node.id ≡ id
        → Reached depth id
        → IsSelection depth s
        → Kept depth s (add_node id node s)
    Kept-add_node depth id node s room e reached h =
        let grows : Grows s (add_node id node s) =
          λ other g. (selected_assign other id node s.nodes).0 g in
        (
          record {
            bounded = omega (arith, room, length-assign id node s.nodes);
            nodes = λ entry i. elim (In-assign id node s.nodes entry i) [
              | inl q ↦
                  subst (λ (x : Str × Node). (x.1.id ≡ x.0) × Reached depth x.0) (sym q)
                    (e, reached)
              | inr j ↦ h.nodes entry j
            ];
            edges = λ entry i.
                let (source, target) = h.edges entry i in
                (grows entry.1.source_id source, grows entry.1.target_id target);
            next = λ other i. let (r, g) = h.next other i in (r, grows other g);
          },
          grows,
        )

    pub Kept-next :
        (depth : ℕ) (id : Str) (s : Selection)
        → Reached depth id
        → is_selected id s ≡ true
        → IsSelection depth s
        → Kept depth s (record s { next = s.next ++ id ∷ [] })
    Kept-next depth id s reached selected h = (
      record {
        bounded = h.bounded;
        nodes = h.nodes;
        edges = h.edges;
        next = λ other i. elim (In-append other s.next (id ∷ []) i) [
          | inl j ↦ h.next other j
          | inr (inl e) ↦
              subst (λ x. Reached depth x × (is_selected x s ≡ true)) e (reached, selected)
          | inr (inr j) ↦ absurd j
        ];
      },
      λ other g. g,
    )

    neighbor_ends :
        (node_id next : Str) (edge : Edge)
        → traversal_neighbor node_id edge direction ≡ some next
        → ((node_id ≡ edge.source_id) × (next ≡ edge.target_id))
          ⊎ ((node_id ≡ edge.target_id) × (next ≡ edge.source_id))
    unfolding traversal_neighbor
    neighbor_ends node_id next edge h =
        elim (Bool-cases (out_of_edge direction && edge.source_id == node_id)) [
          | inl t ↦ inl (ground (arith, t, h))
          | inr f ↦ elim (Bool-cases (into_edge direction && edge.target_id == node_id)) [
            | inl t ↦ inr (ground (arith, f, t, h))
            | inr g ↦ absurd (ground (arith, f, g, h))
          ]
        ]

    -- An edge that leads from a selected node to a selected neighbour.
    Kept-neighbor_edge :
        (depth : ℕ) (node_id next : Str) (edge : Edge) (s : Selection)
        → traversal_neighbor node_id edge direction ≡ some next
        → is_selected node_id s ≡ true
        → is_selected next s ≡ true
        → IsSelection depth s
        → Kept depth s (add_edge edge s)
    Kept-neighbor_edge depth node_id next edge s h a b sel =
        elim (neighbor_ends node_id next edge h) [
          | inl (p, q) ↦
              Kept-add_edge depth edge s (subst (λ x. is_selected x s ≡ true) p a)
                (subst (λ x. is_selected x s ≡ true) q b) sel
          | inr (p, q) ↦
              Kept-add_edge depth edge s (subst (λ x. is_selected x s ≡ true) q b)
                (subst (λ x. is_selected x s ≡ true) p a) sel
        ]

    pub Kept-trans :
        (depth : ℕ) (s t u : Selection) → Kept depth s t → Kept depth t u → Kept depth s u
    Kept-trans depth s t u a b = (b.0, λ id g. b.1 id (a.1 id g))

    -- Fields that the invariant does not read.
    pub IsSelection-other :
        (depth : ℕ) (reasons : List TruncationReason) (boundary : Option Node) (s : Selection)
        → IsSelection depth s
        → IsSelection depth (record s { reasons = reasons; boundary = boundary })
    IsSelection-other depth reasons boundary s h = record {
      bounded = h.bounded;
      nodes = h.nodes;
      edges = h.edges;
      next = h.next;
    }

    module _ (depth : ℕ) (node_id neighbor_id : Str) (neighbor : Node) (edge : Edge) (s : Selection)
        (leads : traversal_neighbor node_id edge direction ≡ some neighbor_id)
        (from_selected : is_selected node_id s ≡ true) (named : neighbor.id ≡ neighbor_id)
        (reached : Reached depth neighbor_id) (selection : IsSelection depth s) where
      abbrev with_node : Selection
      with_node = add_node neighbor_id neighbor s

      both-Kept : length s.nodes < limit → Kept depth s (add_edge edge with_node)
      both-Kept room =
          let node = Kept-add_node depth neighbor_id neighbor s room named reached selection in
          Kept-trans depth s with_node _ node (
            Kept-neighbor_edge depth node_id neighbor_id edge with_node leads
              (node.1 node_id from_selected)
              ((selected_assign neighbor_id neighbor_id neighbor s.nodes).1 refl) node.0)

      Kept-outside :
          Kept depth s
            (reach_outside reads direction relations scoped limit neighbor_id neighbor edge s)
      Kept-outside =
          if_ind (Kept depth s) (length s.nodes == limit)
            (λ t. (IsSelection-other depth _ _ s selection, λ id g. g))
            (λ f.
              let k = both-Kept (ground (arith, f, selection.bounded)) in
              (IsSelection-other depth _ _ _ k.0, k.1))

      Kept-inside :
          Kept depth s
            (reach_inside reads direction relations scoped limit neighbor_id neighbor edge s)
      Kept-inside =
          if_ind (Kept depth s) (is_selected neighbor_id s)
            (λ t.
              Kept-neighbor_edge depth node_id neighbor_id edge s leads from_selected t selection)
            (λ f.
              if_ind (Kept depth s) (length s.nodes == limit)
                (λ t. (IsSelection-other depth _ _ s selection, λ id g. g))
                (λ g.
                  let k = both-Kept (ground (arith, g, selection.bounded)) in
                  Kept-trans depth s (add_edge edge with_node) _ k (
                    Kept-next depth neighbor_id (add_edge edge with_node) reached
                      ((selected_assign neighbor_id neighbor_id neighbor s.nodes).1 refl) k.0)))

      pub Kept-reach_neighbor :
          Kept depth s
            (reach_neighbor reads direction relations scoped limit neighbor_id neighbor edge s)
      Kept-reach_neighbor =
          if_ind (Kept depth s) (out_of_scope scoped neighbor_id) (λ t. Kept-outside)
            (λ f. Kept-inside)
