-- ===== src/Query/Path/Follow.antt =====
-- query/path.go: the loop over the edges of a node keeps the invariant of the search.
use agent_graph.Prelude.{
  ℕ, suc, Str, List, [], ◌∷◌, ◌++◌, Bool, true, false, ◌≡◌, refl, sym, ap, arith, inl, inr, ◌∙◌, In,
  str_eq, lookup, map, ◌≤◌, subst, is_some, mem, not, ◌||◌, mem→In, not-mem→not-In, if_ind,
  In-append, In-append_left, In-append_right, length-append, lookup-some→In, Option-cases,
}
use agent_graph.Graph.Types.{Node, Edge}
use agent_graph.Query.Path.{Search, neighbor, follow, follow_all, edges_of}
use agent_graph.Query.Path.Depth.{depth, Placed, depth_kept}
use agent_graph.Query.Path.Measure.{unseen_falls}
use agent_graph.Query.Path.Invariant.{Link, Inv, measure, skip}
use mathlib.Core.List.{append_assoc}

module _ (nodes : List (Str × Node)) (edges_by_source : List (Str × List Edge)) (undirected : Bool)
    (source : Str) where
  abbrev pub Kept : ℕ → List Str → List Str → List (Str × Edge) → Search → Str → Search → Type 0
  Kept k done front left s id s' =
      ((back : List Str) × Inv nodes edges_by_source undirected source k done front back left s')
      × (depth s'.predecessors id ≡ k)
      × (measure nodes edges_by_source undirected source s'
          ≤ measure nodes edges_by_source undirected source s)

  module _ (k : ℕ) (done front back : List Str) (left : List (Str × Edge)) (s : Search) (id : Str)
      (e : Edge)
      (inv : Inv nodes edges_by_source undirected source k done front back ((id, e) ∷ left) s)
      (taken : In id done) (at_k : depth s.predecessors id ≡ k)
      (edge : In e (edges_of nodes edges_by_source undirected id)) where
    module _ (known : is_some (lookup (neighbor undirected id e) nodes) ≡ true)
        (new : mem (neighbor undirected id e) s.seen ≡ false) where
      abbrev x : Str
      x = neighbor undirected id e

      abbrev s' : Search
      s' = record {
        frontier = s.frontier ++ x ∷ [];
        seen = x ∷ s.seen;
        predecessors = (x, (id, e)) ∷ s.predecessors;
      }

      unplaced : ¬ Placed (Link nodes edges_by_source undirected source) source s.predecessors x
      unplaced p = not-mem→not-In x s.seen new ((inv.seen_placed x).1 p)

      kept : (v : Str) → In v s.seen → depth s'.predecessors v ≡ depth s.predecessors v
      kept v i =
          (depth_kept (Link nodes edges_by_source undirected source) source x id e s.predecessors v
            (λ q. unplaced (inl q)) (λ j. unplaced (inr j)) ((inv.seen_placed v).0 i)).1

      seen_id : In id s.seen
      seen_id = (inv.seen_done id).1 (inl taken)

      new_depth : depth s'.predecessors x ≡ suc k
      new_depth = ground (arith, at_k)

      in_front : (v : Str) → In v front → In v s.seen
      in_front v i =
          (inv.seen_done v).1 (inr (subst (In v) (sym inv.split) (In-append_left v front back i)))

      in_back : (v : Str) → In v back → In v s.seen
      in_back v i =
          (inv.seen_done v).1 (inr (subst (In v) (sym inv.split) (In-append_right v front back i)))

      extended : Inv nodes edges_by_source undirected source k done front (back ++ x ∷ []) left s'
      extended = record {
        tree = (
          λ q. unplaced (inl q),
          λ j. unplaced (inr j),
          (inv.seen_placed id).0 seen_id,
          (edge, refl, known),
          inv.tree,
        );
        split = ap (λ f. f ++ x ∷ []) inv.split ∙ append_assoc front back (x ∷ []);
        seen_done = λ v. (
          λ i. elim i [
            | inl p ↦ inr (In-append_right v s.frontier (x ∷ []) (inl p))
            | inr j ↦ elim ((inv.seen_done v).0 j) [
              | inl d ↦ inl d
              | inr f ↦ inr (In-append_left v s.frontier (x ∷ []) f)
            ]
          ],
          λ i. elim i [
            | inl d ↦ inr ((inv.seen_done v).1 (inl d))
            | inr f ↦ elim (In-append v s.frontier (x ∷ []) f) [
              | inl g ↦ inr ((inv.seen_done v).1 (inr g))
              | inr (inl p) ↦ inl p
              | inr (inr z) ↦ absurd z
            ]
          ],
        );
        seen_placed = λ v. (
          λ i. elim i [
            | inl p ↦ inr (inl p)
            | inr j ↦ elim ((inv.seen_placed v).0 j) [ inl p ↦ inl p | inr l ↦ inr (inr l) ]
          ],
          λ i. elim i [
            | inl p ↦ inr ((inv.seen_placed v).1 (inl p))
            | inr (inl p) ↦ inl p
            | inr (inr l) ↦ inr ((inv.seen_placed v).1 (inr l))
          ],
        );
        near = λ v i. kept v (in_front v i) ∙ inv.near v i;
        far = λ v i. elim (In-append v back (x ∷ []) i) [
          | inl b ↦ kept v (in_back v b) ∙ inv.far v b
          | inr (inl p) ↦ ap (depth s'.predecessors) (sym p) ∙ new_depth
          | inr (inr z) ↦ absurd z
        ];
        past = λ v i. omega (arith, kept v ((inv.seen_done v).1 (inl i)), inv.past v i);
        closed = λ v d w i l.
            let kv = kept v ((inv.seen_done v).1 (inl i)) in
            elim (inv.closed v d w i l) [
              | inl (inl p) ↦
                  let q : id ≡ v = ap (λ (x : Str × Edge). x.0) p in
                  let r : e ≡ d = ap (λ (x : Str × Edge). x.1) p in
                  let t : x ≡ w =
                    subst (λ d. neighbor undirected id d ≡ w) (sym r)
                      (subst (λ x. neighbor undirected x d ≡ w) (sym q) l.1) in
                  inr (
                    inl t,
                    omega (
                      arith,
                      ap (depth s'.predecessors) t,
                      new_depth,
                      at_k,
                      ap (depth s.predecessors) q,
                      kv,
                    ),
                  )
              | inl (inr j) ↦ inl j
              | inr (j, b) ↦ inr (inr j, omega (arith, kept w j, kv, b))
            ];
      }

      is_node : In x (map (λ p. p.0) nodes)
      is_node = elim (Option-cases (lookup x nodes)) [
        | inl f ↦ cc (known, f)
        | inr (node, f) ↦ lookup-some→In x nodes f
      ]

      extends : Kept k done front left s id s'
      extends = (
        (back ++ x ∷ [], extended),
        kept id seen_id ∙ at_k,
        omega (
          arith,
          length-append s.frontier (x ∷ []),
          unseen_falls x s.seen (map (λ p. p.0) nodes) new is_node,
        ),
      )

    follow-Kept : Kept k done front left s id (follow nodes edges_by_source undirected id s e)
    unfolding follow
    follow-Kept =
        if_ind (Kept k done front left s id)
          (not (is_some (lookup (neighbor undirected id e) nodes))
            || mem (neighbor undirected id e) s.seen)
          (λ t. (
            (
              back,
              skip nodes edges_by_source undirected source k done front back left s id e inv taken
                  at_k (λ w l. ground (arith, t, l, mem→In w s.seen)),
            ),
            at_k,
            omega arith,
          ))
          (λ f. extends (ground (arith, f)) (ground (arith, f)))

  pub follow_all-Kept :
      (k : ℕ) (done front back : List Str) (left : List Edge) (s : Search) (id : Str)
      → Inv nodes edges_by_source undirected source k done front back (map (λ e. (id, e)) left) s
      → In id done
      → depth s.predecessors id ≡ k
      → ((e : Edge) → In e left → In e (edges_of nodes edges_by_source undirected id))
      → Kept k done front [] s id (follow_all nodes edges_by_source undirected id s left)
  unfolding follow_all
  follow_all-Kept k done front back [] s id inv taken at_k among = ((back, inv), at_k, omega arith)
  follow_all-Kept k done front back (e ∷ left) s id inv taken at_k among =
      let ((back', inv'), at_k', less) =
        follow-Kept k done front back (map (λ e. (id, e)) left) s id e inv taken at_k
          (among e (inl refl)) in
      let (more, at_k'', less') =
        follow_all-Kept k done front back' left (follow nodes edges_by_source undirected id s e) id
          inv' taken at_k' (λ d i. among d (inr i)) in
      (more, at_k'', omega (arith, less, less'))
