-- ===== src/Query/Path/Invariant.antt =====
-- query/path.go: the invariant of the breadth-first search, and that following an edge keeps it.
use agent_graph.Prelude.{
  ℕ, suc, Str, List, ◌∷◌, ◌++◌, Bool, true, ◌≡◌, ◌↔◌, sym, ap, arith, ◌⊎◌, inl, inr, In, str_eq,
  lookup, length, map, ◌≤◌, ◌+◌, subst, is_some, In-append,
}
use agent_graph.Graph.Types.{Node, Edge}
use agent_graph.Query.Path.{Search, neighbor, edges_of}
use agent_graph.Query.Path.Depth.{depth, IsTree, Placed}
use agent_graph.Query.Path.Measure.{unseen}

module _ (nodes : List (Str × Node)) (edges_by_source : List (Str × List Edge)) (undirected : Bool)
    (source : Str) where
  -- The search may follow the edge from the first node to the second.
  abbrev pub Link : Str → Edge → Str → Type 0
  Link p e n =
      In e (edges_of nodes edges_by_source undirected p)
      × (neighbor undirected p e ≡ n)
      × (is_some (lookup n nodes) ≡ true)

  -- The nodes that are `done` were taken from the frontier, and their edges followed, but for those `left`.
  -- The frontier holds first nodes of this depth, then nodes one edge further.
  pub record Inv (k : ℕ) (done front back : List Str) (left : List (Str × Edge)) (s : Search)
      : Type 0 where
    pub tree : IsTree Link source s.predecessors
    pub split : s.frontier ≡ front ++ back
    pub seen_done : (v : Str) → In v s.seen ↔ (In v done ⊎ In v s.frontier)
    pub seen_placed : (v : Str) → In v s.seen ↔ Placed Link source s.predecessors v
    pub near : (v : Str) → In v front → depth s.predecessors v ≡ k
    pub far : (v : Str) → In v back → depth s.predecessors v ≡ suc k
    pub past : (v : Str) → In v done → depth s.predecessors v ≤ k
    pub closed :
        (v : Str) (e : Edge) (w : Str)
        → In v done
        → Link v e w
        → In (v, e) left ⊎ (In w s.seen × (depth s.predecessors w ≤ suc (depth s.predecessors v)))

  -- The rounds that are left at most.
  abbrev pub measure : Search → ℕ
  measure s = length s.frontier + unseen s.seen (map (λ p. p.0) nodes)

  module _ (k : ℕ) (done front back : List Str) (left : List (Str × Edge)) (s : Search) where
    pub seen_bound :
        Inv k done front back left s → (v : Str) → In v s.seen → depth s.predecessors v ≤ suc k
    seen_bound inv v i = elim ((inv.seen_done v).0 i) [
      | inl d ↦ omega (arith, inv.past v d)
      | inr f ↦ elim (In-append v front back (subst (In v) inv.split f)) [
        | inl n ↦ omega (arith, inv.near v n)
        | inr b ↦ omega (arith, inv.far v b)
      ]
    ]

  module _ (k : ℕ) (done front back : List Str) (left : List (Str × Edge)) (s : Search) (id : Str)
      (e : Edge) (inv : Inv k done front back ((id, e) ∷ left) s) (taken : In id done)
      (here : depth s.predecessors id ≡ k) where
    -- An edge that leads nowhere new is followed for nothing.
    pub skip : ((w : Str) → Link id e w → In w s.seen) → Inv k done front back left s
    skip known = record {
      tree = inv.tree;
      split = inv.split;
      seen_done = inv.seen_done;
      seen_placed = inv.seen_placed;
      near = inv.near;
      far = inv.far;
      past = inv.past;
      closed = λ v d w i l. elim (inv.closed v d w i l) [
        | inl (inl p) ↦
            let q : id ≡ v = ap (λ (x : Str × Edge). x.0) p in
            let r : e ≡ d = ap (λ (x : Str × Edge). x.1) p in
            let l' : Link id e w =
              subst (λ x. Link id x w) (sym r) (subst (λ x. Link x d w) (sym q) l) in
            let j = known w l' in
            inr (
              j,
              omega (
                arith,
                seen_bound k done front back ((id, e) ∷ left) s inv w j,
                here,
                ap (depth s.predecessors) q,
              ),
            )
        | inl (inr j) ↦ inl j
        | inr b ↦ inr b
      ];
    }
