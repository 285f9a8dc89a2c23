-- ===== src/Workspace/Roots/Specific.antt =====
-- workspace/discovery.go: the root that mostSpecificRoot takes for a source.
use agent_graph.Prelude.{
  ℕ, ◌≤◌, ◌<◌, Str, List, [], ◌∷◌, Bool, true, false, none, some, str_eq, ◌≡◌, ◌≢◌, refl, sym,
  arith, In, ◌⊎◌, inl, inr, length, ltb, ◌&&◌, Bool-cases, subst, if_ind, List-cases,
}
use agent_graph.Workspace.Roots.{owns, longest_owner, most_specific_root}

-- The best root so far or one of these, if it owns the source.
abbrev Candidate : Str → List Str → Str → Str → Type 0
Candidate path roots best r = (r ≡ best) ⊎ (In r roots × (owns r path ≡ true))

and_false : (a b : Bool) → a ≡ false → ¬ (a && b ≡ true)
and_false a b e h = ground (arith, e)

and_true : (a b : Bool) → a ≡ true → a && b ≡ false → b ≡ false
and_true a b e h = ground (arith, e)

-- A candidate that no other one exceeds in length.
abbrev Longest : Str → List Str → Str → Str → Type 0
Longest path roots best r =
    Candidate path roots best r
    × (length best ≤ length r)
    × ((other : Str) → In other roots → owns other path ≡ true → length other ≤ length r)

Longest-taken :
    (path root : Str) (roots : List Str) (best r : Str)
    → owns root path ≡ true
    → length best < length root
    → Longest path roots root r
    → Longest path (root ∷ roots) best r
Longest-taken path root roots best r o l h = (
  ground (arith, h.0, o),
  omega (arith, h.1),
  λ other i p. elim i [ inl e ↦ subst (λ x. length x ≤ length r) e h.1 | inr j ↦ h.2 other j p ],
)

Longest-left :
    (path root : Str) (roots : List Str) (best r : Str)
    → (owns root path ≡ true → length root ≤ length best)
    → Longest path roots best r
    → Longest path (root ∷ roots) best r
Longest-left path root roots best r f h = (
  ground (arith, h.0),
  h.1,
  λ other i p. elim i [
    | inl e ↦
        let short = f (subst (λ x. owns x path ≡ true) (sym e) p) in
        subst (λ x. length x ≤ length r) e (omega (arith, short, h.1))
    | inr j ↦ h.2 other j p
  ],
)

longest_owner-Longest :
    (path : Str) (roots : List Str) (best : Str)
    → Longest path roots best (longest_owner path roots best)
unfolding longest_owner
longest_owner-Longest path [] best = (inl refl, omega arith, λ r i. absurd i)
longest_owner-Longest path (root ∷ roots) best =
    if_ind (λ b. Longest path (root ∷ roots) best (longest_owner path roots b))
      (owns root path && ltb (length best) (length root))
      (λ t.
        Longest-taken path root roots best _ (taken t).0 (taken t).1
          (longest_owner-Longest path roots root))
      (λ f. Longest-left path root roots best _ (left f) (longest_owner-Longest path roots best))
  where
    taken :
        owns root path && ltb (length best) (length root) ≡ true
        → (owns root path ≡ true) × (length best < length root)
    taken t = elim (Bool-cases (owns root path)) [
      | inl o ↦ (o, ground arith)
      | inr n ↦ absurd (and_false _ _ n t)
    ]

    left :
        owns root path && ltb (length best) (length root) ≡ false
        → owns root path ≡ true
        → length root ≤ length best
    left f o = ground (arith, and_true _ _ o f)

-- If no listed root is empty, `mostSpecificRoot` finds a root unless no listed root owns the path. The root it finds is listed and owns the path,
-- and no listed root that owns the path is longer.
pub most_specific_root_lem :
    (path : Str) (roots : List Str)
    → ¬ In [] roots
    → ((r : Str)
        → most_specific_root path roots ≡ some r
        → In r roots
          × (owns r path ≡ true)
          × ((other : Str) → In other roots → owns other path ≡ true → length other ≤ length r))
      × (most_specific_root path roots ≡ none → (r : Str) → In r roots → owns r path ≡ false)
unfolding most_specific_root
most_specific_root_lem path roots filled =
    let (candidate, _, longest) = longest_owner-Longest path roots [] in
    elim (List-cases (longest_owner path roots [])) [
      | inl e ↦ (
        λ r h. absurd (ground arith),
        λ h r i. elim (Bool-cases (owns r path)) [
          | inl o ↦
              let none_left : length r ≤ length {A = ℕ} [] =
                subst (λ b. length r ≤ length b) e (longest r i o) in
              absurd (empty_root r none_left i)
          | inr n ↦ n
        ],
      )
      | inr (c, cs, e) ↦ (
        λ r h.
            let same : longest_owner path roots [] ≡ r = found e h in
            let (i, o) = listed (subst (Candidate path roots []) same candidate) (cc) in
            (i, o, λ other j p. subst (λ b. length other ≤ length b) same (longest other j p)),
        λ h. absurd (ground arith),
      )
    ]
  where
    empty_root : (r : Str) → length r ≤ 0 → ¬ In r roots
    empty_root [] l i = filled i
    empty_root (c ∷ r) l i = absurd (omega arith)

    found :
        {c : ℕ} {cs r : Str}
        → longest_owner path roots [] ≡ c ∷ cs
        → most_specific_root path roots ≡ some r
        → longest_owner path roots [] ≡ r
    found e h = ground (arith, e, h)

    listed : {r : Str} → Candidate path roots [] r → r ≢ [] → In r roots × (owns r path ≡ true)
    listed (inl e) n = absurd (n e)
    listed (inr h) n = h
