-- ===== src/Query/Path/Rounds.antt =====
-- query/path.go: the rounds of the search, and that they come to an end.
use agent_graph.Prelude.{
  ℕ, zero, suc, Str, List, [], ◌∷◌, ◌++◌, Bool, ◌≡◌, refl, sym, ap, arith, inl, inr, ◌∙◌, In,
  str_eq, ◌==◌, if◌then◌else◌, length, map, ◌≤◌, ◌<◌, subst, List-cases, if_ind, In-map,
}
use agent_graph.Graph.Types.{Node, Edge}
use agent_graph.Query.Path.{Search, follow_all, edges_of, search_from, start_search}
use agent_graph.Query.Path.Measure.{unseen_bound}
use agent_graph.Query.Path.Invariant.{Inv, measure}
use agent_graph.Query.Path.Follow.{follow_all-Kept}
use mathlib.Core.List.{append-nil}
use agent_graph.Query.Path.Ends.{Ends, exhausted, arrived}

length-map : (nodes : List (Str × Node)) → length (map (λ p. p.0) nodes) ≡ length nodes
length-map [] = refl
length-map (x ∷ nodes) = ap suc (length-map nodes)

module _ (nodes : List (Str × Node)) (edges_by_source : List (Str × List Edge)) (undirected : Bool)
    (source : Str) where
  -- A node is taken from the frontier.
  take_node :
      (k : ℕ) (done front back : List Str) (id : Str) (s : Search)
      → Inv nodes edges_by_source undirected source k done (id ∷ front) back [] s
      → Inv nodes edges_by_source undirected source k
          (id ∷ done)
          front
          back
          (map (λ e. (id, e)) (edges_of nodes edges_by_source undirected id))
          (record s { frontier = front ++ back })
  take_node k done front back id s inv = record {
    tree = inv.tree;
    split = refl;
    seen_done = λ v. (
      λ i. elim ((inv.seen_done v).0 i) [
        | inl d ↦ inl (inr d)
        | inr f ↦ elim (subst (In v) inv.split f) [ inl p ↦ inl (inl p) | inr g ↦ inr g ]
      ],
      λ i. (inv.seen_done v).1 (elim i [
        | inl (inl p) ↦ inr (subst (In v) (sym inv.split) (inl p))
        | inl (inr d) ↦ inl d
        | inr g ↦ inr (subst (In v) (sym inv.split) (inr g))
      ]),
    );
    seen_placed = inv.seen_placed;
    near = λ v i. inv.near v (inr i);
    far = inv.far;
    past = λ v i. elim i [ inl p ↦ omega (arith, inv.near v (inl p)) | inr d ↦ inv.past v d ];
    closed = λ v e w i link. elim i [
      | inl p ↦ inl (
          subst
            (λ x.
              In {A = Str × Edge} (x, e)
                (map (λ d. (id, d)) (edges_of nodes edges_by_source undirected id)))
            p
            (In-map (λ (d : Edge). (id, d)) e (edges_of nodes edges_by_source undirected id)
              (subst (λ x. In e (edges_of nodes edges_by_source undirected x)) (sym p) link.0)))
      | inr d ↦ elim (inv.closed v e w d link) [ inl z ↦ absurd z | inr r ↦ inr r ]
    ];
  }

  -- The nodes of one depth are all taken: those of the next are in front.
  turn :
      (k : ℕ) (done back : List Str) (s : Search)
      → Inv nodes edges_by_source undirected source k done [] back [] s
      → Inv nodes edges_by_source undirected source (suc k) done back [] [] s
  turn k done back s inv = record {
    tree = inv.tree;
    split = inv.split ∙ sym (append-nil back);
    seen_done = inv.seen_done;
    seen_placed = inv.seen_placed;
    near = inv.far;
    far = λ v i. absurd i;
    past = λ v i. omega (arith, inv.past v i);
    closed = inv.closed;
  }

  front_filled :
      (k : ℕ) (done front back : List Str) (s : Search) (id : Str) (rest : List Str)
      → Inv nodes edges_by_source undirected source k done front back [] s
      → s.frontier ≡ id ∷ rest
      → (l : ℕ) × (front' : List Str) × (back' : List Str) × Inv nodes edges_by_source undirected
          source l done
          (id ∷ front')
          back'
          []
          s
        × (front' ++ back' ≡ rest)
  front_filled k done (x ∷ front) back s id rest inv e =
      let all : x ∷ front ++ back ≡ id ∷ rest = sym inv.split ∙ e in
      let p : x ≡ id = cc all in
      (
        k,
        front,
        back,
        subst (λ y. Inv nodes edges_by_source undirected source k done (y ∷ front) back [] s) p inv,
        cc all,
      )
  front_filled k done [] (x ∷ back) s id rest inv e =
      let all : x ∷ back ≡ id ∷ rest = sym inv.split ∙ e in
      let p : x ≡ id = cc all in
      (
        suc k,
        back,
        [],
        subst (λ y. Inv nodes edges_by_source undirected source (suc k) done (y ∷ back) [] [] s) p
            (turn k done (x ∷ back) s inv),
        append-nil back ∙ cc all,
      )
  front_filled k done [] [] s id rest inv e = absurd (empty (sym inv.split ∙ e))
    where
      empty : [] ≡ id ∷ rest → ⊥
      empty p = cc

  round_ends :
      (fuel : ℕ) (target : Str) (s : Search)
      → s.frontier ≡ []
      → search_from nodes edges_by_source undirected (suc fuel) target s ≡ s
  unfolding search_from
  round_ends fuel target s e = ground (arith, e)

  round :
      (fuel : ℕ) (target : Str) (s : Search) (id : Str) (rest : List Str)
      → s.frontier ≡ id ∷ rest
      → search_from nodes edges_by_source undirected (suc fuel) target s ≡ (
          if id == target
          then record s { frontier = rest }
          else search_from nodes edges_by_source undirected fuel target (
              follow_all nodes edges_by_source undirected id
                (record s { frontier = rest })
                (edges_of nodes edges_by_source undirected id)))
  unfolding search_from
  round fuel target s id rest e = ground (arith, e)

  -- The search ends with enough fuel, and then has found what it looks for.
  search_from-Ends :
      (fuel k : ℕ) (done front back : List Str) (target : Str) (s : Search)
      → measure nodes edges_by_source undirected source s < fuel
      → Inv nodes edges_by_source undirected source k done front back [] s
      → Ends nodes edges_by_source undirected source target
          (search_from nodes edges_by_source undirected fuel target s)
  unfolding search_from
  search_from-Ends zero k done front back target s small inv = absurd (omega (arith, small))
  search_from-Ends (suc fuel) k done front back target s small inv = elim (List-cases s.frontier) [
    | inl e ↦
        subst (Ends nodes edges_by_source undirected source target)
          (sym (round_ends fuel target s e))
          (exhausted nodes edges_by_source undirected source k done front back s inv e target)
    | inr (id, rest, e) ↦
        let (l, front', back', inv', r) = front_filled k done front back s id rest inv e in
        let taken = take_node l done front' back' id s inv' in
        let (more, at_l, less) =
          follow_all-Kept nodes edges_by_source undirected source l (id ∷ done) front' back'
            (edges_of nodes edges_by_source undirected id) (record s { frontier = front' ++ back' })
            id taken (inl refl) (inv'.near id (inl refl)) (λ d i. i) in
        subst (Ends nodes edges_by_source undirected source target)
          (sym (round fuel target s id rest e))
          (if_ind (Ends nodes edges_by_source undirected source target) (id == target)
            (λ t.
              let a =
                arrived nodes edges_by_source undirected source l done (id ∷ front') back' s inv'
                  target (inl (ground (arith, t))) in
              record { tree = a.tree; seen_placed = a.seen_placed; best = a.best })
            (λ f.
              subst
                (λ x. Ends nodes edges_by_source undirected source target (
                  search_from nodes edges_by_source undirected fuel target (
                    follow_all nodes edges_by_source undirected id (record s { frontier = x })
                      (edges_of nodes edges_by_source undirected id))))
                r
                (search_from-Ends fuel l (id ∷ done) front' more.0 target _
                  (omega (arith, small, less, ap length e, ap length r)) more.1)))
  ]

  start-Inv :
      Inv nodes edges_by_source undirected source 0 [] (source ∷ []) [] [] (start_search source)
  start-Inv = record {
    tree = tt;
    split = refl;
    seen_done = λ v. (λ i. inr i, λ i. elim i [ inl z ↦ absurd z | inr j ↦ j ]);
    seen_placed = λ v. (
      λ i. elim i [ inl p ↦ inl (sym p) | inr z ↦ absurd z ],
      λ i. elim i [ inl p ↦ inl (sym p) | inr z ↦ absurd z ],
    );
    near = λ v i. refl;
    far = λ v i. absurd i;
    past = λ v i. absurd i;
    closed = λ v e w i l. absurd i;
  }

  pub search-Ends :
      (count : ℕ) (target : Str)
      → length nodes ≤ count
      → Ends nodes edges_by_source undirected source target (
          search_from nodes edges_by_source undirected
            (suc (suc count))
            target
            (start_search source))
  search-Ends count target enough =
      search_from-Ends (suc (suc count)) 0 [] (source ∷ []) [] target (start_search source)
        (omega (arith, enough, unseen_bound (source ∷ []) (map (λ p. p.0) nodes), length-map nodes))
        start-Inv
