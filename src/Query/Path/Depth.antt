-- ===== src/Query/Path/Depth.antt =====
-- query/path.go: the tree that the predecessors of a search make.
use agent_graph.Prelude.{
  ℕ, suc, Str, List, [], ◌∷◌, some, ◌≡◌, ◌≢◌, refl, sym, arith, ◌⊎◌, inl, inr, ◌∙◌, In, str_eq,
  Str-discrete, lookup, ◌==◌, if◌then◌else◌, length, map, ◌≤◌, subst,
}
use agent_graph.Graph.Types.{Edge}

abbrev pub Predecessors : Type 0
Predecessors = List (Str × (Str × Edge))

abbrev pub keys : Predecessors → List Str
keys ps = map (λ p. p.0) ps

-- The number of edges from the source.
abbrev pub depth : Predecessors → Str → ℕ
depth [] id = 0
depth ((n, (p, e)) ∷ ps) id =
    let up = depth ps p in let further = depth ps id in if n == id then suc up else further

pub depth_bound : (ps : Predecessors) (id : Str) → depth ps id ≤ length ps
depth_bound [] id = omega arith
depth_bound ((n, (p, e)) ∷ ps) id = ground (arith, depth_bound ps p, depth_bound ps id)

module _ (Link : Str → Edge → Str → Type 0) (source : Str) where
  abbrev pub Placed : Predecessors → Str → Type 0
  Placed ps id = (id ≡ source) ⊎ In id (keys ps)

  -- Each node was reached once, from the source or from a node that had been reached before it.
  abbrev pub IsTree : Predecessors → Type 0
  IsTree [] = Unit
  IsTree ((n, (p, e)) ∷ ps) =
      (n ≢ source) × (¬ In n (keys ps)) × Placed ps p × Link p e n × IsTree ps

  pub depth_source : (ps : Predecessors) → IsTree ps → depth ps source ≡ 0
  depth_source [] t = refl
  depth_source ((n, (p, e)) ∷ ps) t =
      let (not_source, fresh, placed, link, rest) = t in
      ground (arith, not_source, depth_source ps rest)

  -- A node that is placed keeps its depth when another one is added.
  pub depth_kept :
      (n p : Str) (e : Edge) (ps : Predecessors) (id : Str)
      → n ≢ source
      → ¬ In n (keys ps)
      → Placed ps id
      → (n ≢ id) × (depth ((n, (p, e)) ∷ ps) id ≡ depth ps id)
  depth_kept n p e ps id not_source fresh placed =
      let apart : n ≢ id = λ q. elim placed [
        | inl s ↦ not_source (q ∙ s)
        | inr i ↦ fresh (subst (λ x. In x (keys ps)) (sym q) i)
      ] in
      (apart, ground (arith, apart))

  pub Placed-cons :
      (n p : Str) (e : Edge) (ps : Predecessors) (id : Str)
      → Placed ps id
      → Placed ((n, (p, e)) ∷ ps) id
  Placed-cons n p e ps id (inl s) = inl s
  Placed-cons n p e ps id (inr i) = inr (inr i)

  pub lookup-IsTree :
      (ps : Predecessors) (id : Str) {p : Str} {e : Edge}
      → IsTree ps
      → lookup id ps ≡ some (p, e)
      → Placed ps p × Link p e id × (depth ps id ≡ suc (depth ps p))
  lookup-IsTree [] id t h = cc
  lookup-IsTree ((n, (q, d)) ∷ ps) id {p} {e} (not_source, fresh, placed, link, rest) h =
      elim (Str-discrete n id) [
        | yes s ↦
            let up : q ≡ p = ground (arith, s, h) in
            let by : d ≡ e = ground (arith, s, h) in
            let placed_p : Placed ps p = subst (Placed ps) up placed in
            let kept = depth_kept n q d ps p not_source fresh placed_p in
            (
              Placed-cons n q d ps p placed_p,
              subst (λ x. Link p x id) by
                  (subst (λ x. Link p d x) s (subst (λ x. Link x d n) up link)),
              ground (arith, kept, s, up),
            )
        | no apart ↦
            let (pl, li, de) =
              lookup-IsTree ps id {p = p} {e = e} rest (ground (arith, apart, h)) in
            let kept = depth_kept n q d ps p not_source fresh pl in
            (Placed-cons n q d ps p pl, li, ground (arith, kept, apart, de))
      ]

  pub lookup-Placed :
      (ps : Predecessors) (id : Str)
      → id ≢ source
      → Placed ps id
      → (x : Str × Edge) × (lookup id ps ≡ some x)
  lookup-Placed ps id n (inl s) = absurd (n s)
  lookup-Placed [] id n (inr i) = absurd i
  lookup-Placed ((k, x) ∷ ps) id n (inr i) = elim (Str-discrete k id) [
    | yes p ↦ (x, ground (arith, p))
    | no q ↦ elim i [
      | inl p ↦ absurd (q p)
      | inr j ↦ let (y, e) = lookup-Placed ps id n (inr j) in (y, ground (arith, q, e))
    ]
  ]
