-- ===== src/Query/Rank/Best.antt =====
-- query/rank.go: the nodes that are selected for a term.
use agent_graph.Prelude.{
  ℕ, Str, List, [], ◌∷◌, some, true, false, ◌==◌, str_eq, ◌≡◌, refl, sym, ap, arith, ◌≤◌, ◌⊎◌, inl,
  inr, In, Distinct, map, mem, length, take, min, Bool-cases, Option-cases, not-mem→not-In, if_ind,
  length-take, subst, In-map, map-In,
}
use agent_graph.Graph.Types.{Node}
use agent_graph.Query.Find.{max_seeds_per_term}
use agent_graph.Query.Rank.{
  match_rank, RankedNode, rank_nodes, ranks_before, insert_ranked, sort_ranked, select_nodes,
  rank_term_matches, rank_term,
}

-- The node is one of these and matches the term.
abbrev pub IsMatch : List Node → Str → Node → Type 0
IsMatch nodes term node = In node nodes × ((rank : ℕ) × (match_rank node term ≡ some rank))

In-rank_nodes :
    (term : Str) (nodes : List Node) (x : RankedNode)
    → In x (rank_nodes term nodes)
    → In x.node nodes × (match_rank x.node term ≡ some x.rank)
unfolding rank_nodes
In-rank_nodes term [] x i = absurd i
In-rank_nodes term (node ∷ nodes) x i = elim (Option-cases (match_rank node term)) [
  | inl e ↦ let (j, m) = In-rank_nodes term nodes x (ground (arith, i, e)) in (inr j, m)
  | inr (rank, e) ↦ elim (In-head i e) [
    | inl p ↦ (
      inl (ap (λ (r : RankedNode). r.node) p),
      subst (λ (r : RankedNode). match_rank r.node term ≡ some r.rank) p e,
    )
    | inr k ↦ let (j, m) = In-rank_nodes term nodes x k in (inr j, m)
  ]
]
  where
    In-head :
        {rank : ℕ}
        → In x (rank_nodes term (node ∷ nodes))
        → match_rank node term ≡ some rank
        → (◌≡◌ {A = RankedNode} (record { node = node; rank = rank }) x)
          ⊎ In x (rank_nodes term nodes)
    In-head i e = ground (arith, i, e)

In-insert_ranked :
    (x y : RankedNode) (xs : List RankedNode) → In x (insert_ranked y xs) → (y ≡ x) ⊎ In x xs
unfolding insert_ranked
In-insert_ranked x y [] i = i
In-insert_ranked x y (z ∷ xs) i = elim (Bool-cases (ranks_before z y)) [
  | inl t ↦ ground (arith, i, t, In-insert_ranked x y xs)
  | inr f ↦ ground (arith, i, f)
]

In-sort_ranked : (x : RankedNode) (xs : List RankedNode) → In x (sort_ranked xs) → In x xs
unfolding sort_ranked
In-sort_ranked x [] i = i
In-sort_ranked x (y ∷ xs) i =
    ground (arith, In-insert_ranked x y (sort_ranked xs) i, In-sort_ranked x xs)

abbrev ids : List Node → List Str
ids nodes = map (λ node. node.id) nodes

-- The selected nodes are new, differ in their ids, and come from the list.
abbrev Selected : List Str → List RankedNode → List Node → Type 0
Selected seen xs nodes =
    Distinct (ids nodes)
    × ((k : Str) → In k (ids nodes) → ¬ In k seen)
    × ((node : Node) → In node nodes → (x : RankedNode) × In x xs × (x.node ≡ node))

select_old :
    (seen : List Str) (x : RankedNode) (xs : List RankedNode)
    → mem x.node.id seen ≡ true
    → select_nodes seen xs ≡ select_nodes seen (x ∷ xs)
unfolding select_nodes
select_old seen x xs h = ground (arith, h)

select_new :
    (seen : List Str) (x : RankedNode) (xs : List RankedNode)
    → mem x.node.id seen ≡ false
    → x.node ∷ select_nodes (x.node.id ∷ seen) xs ≡ select_nodes seen (x ∷ xs)
unfolding select_nodes
select_new seen x xs h = ground (arith, h)

select_nodes-Selected :
    (seen : List Str) (xs : List RankedNode) → Selected seen xs (select_nodes seen xs)
select_nodes-Selected seen [] = unfold select_nodes in (tt, λ k i. absurd i, λ node i. absurd i)
select_nodes-Selected seen (x ∷ xs) = elim (Bool-cases (mem x.node.id seen)) [
  | inl old ↦
      let (d, fresh, from) = select_nodes-Selected seen xs in
      subst (Selected seen (x ∷ xs)) (select_old seen x xs old)
        (d, fresh, λ node i. let (y, j, e) = from node i in (y, inr j, e))
  | inr new ↦
      let (d, fresh, from) = select_nodes-Selected (x.node.id ∷ seen) xs in
      subst (Selected seen (x ∷ xs)) (select_new seen x xs new) (
        (λ i. fresh x.node.id i (inl refl), d),
        λ k i. elim i [
          | inl e ↦ (λ j. not-mem→not-In x.node.id seen new (subst (λ z. In z seen) (sym e) j))
          | inr j ↦ (λ l. fresh k j (inr l))
        ],
        λ node i. elim i [
          | inl e ↦ (x, inl refl, e)
          | inr j ↦ let (y, l, e) = from node j in (y, inr l, e)
        ],
      )
]

In-take : {A : Type 0} (a : A) (n : ℕ) (xs : List A) → In a (take n xs) → In a xs
In-take a ℕ.zero xs i = absurd i
In-take a (ℕ.suc n) [] i = absurd i
In-take a (ℕ.suc n) (x ∷ xs) (inl e) = inl e
In-take a (ℕ.suc n) (x ∷ xs) (inr i) = inr (In-take a n xs i)

Distinct-take : (n : ℕ) (nodes : List Node) → Distinct (ids nodes) → Distinct (ids (take n nodes))
Distinct-take ℕ.zero nodes d = tt
Distinct-take (ℕ.suc n) [] d = tt
Distinct-take (ℕ.suc n) (x ∷ nodes) d = (
  λ i.
      let (y, j, e) = map-In (λ (node : Node). node.id) (take n nodes) i in
      d.0 (
        subst (λ z. In z (ids nodes)) e
          (In-map (λ (node : Node). node.id) y nodes (In-take y n nodes j))),
  Distinct-take n nodes d.1,
)

-- For a term, `Rank` selects at most three nodes, whose ids differ, each of them among the nodes given and a match of
-- the term.
pub rank_term_lem :
    (nodes : List Node) (term : Str)
    → (length (rank_term nodes term) ≤ 3)
      × Distinct (map (λ node. node.id) (rank_term nodes term))
      × ((node : Node) → In node (rank_term nodes term) → IsMatch nodes term node)
unfolding rank_term rank_term_matches
rank_term_lem nodes term =
    if_ind
      (λ matches.
        (length (take (min (length matches) max_seeds_per_term) matches) ≤ 3)
        × Distinct (ids (take (min (length matches) max_seeds_per_term) matches))
        × ((node : Node)
            → In node (take (min (length matches) max_seeds_per_term) matches)
            → IsMatch nodes term node))
      (term == []) (λ _. (omega arith, tt, λ node i. absurd i))
      (λ _.
        let sorted = sort_ranked (rank_nodes term nodes) in
        let found = select_nodes [] sorted in
        let n : ℕ = min (length found) max_seeds_per_term in
        let (d, fresh, from) = select_nodes-Selected [] sorted in
        (
          omega (arith, length-take n found),
          Distinct-take n found d,
          λ node i.
              let (x, j, e) = from node (In-take node n found i) in
              let (k, m) =
                In-rank_nodes term nodes x (In-sort_ranked x (rank_nodes term nodes) j) in
              subst (IsMatch nodes term) e (k, (x.rank, m)),
        ))
