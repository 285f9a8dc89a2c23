-- ===== src/GoPath/Rel.antt =====
-- `filepath.Rel` between rooted paths, by their components.
use agent_graph.Prelude.{
  Str, List, [], ◌∷◌, ◌++◌, ◌≡◌, ◌≢◌, refl, sym, ap, All, arith, ◌⊎◌, inl, inr, Bool, true, false,
  str_eq, Str-discrete, ◌==◌, nat_eq, map, some, if◌then◌else◌, Bool-cases,
}
use agent_graph.GoPath.{
  slash, dot, dot_dot, split, join_components, is_abs, elements, drop_common, climb, climb_common,
  rel, components, render, clean, has_prefix,
}
use agent_graph.GoPath.Components.{split-join_components, split_self}
use agent_graph.GoPath.Resolve.{Proper, IsClean, IsClean-Proper, IsClean-NoSlash}
use agent_graph.GoPath.Clean.{components-IsClean, is_abs-join_components}

-- What is left behind the common front of two lists.
pub drop_common_parts :
    (bs ts : List Str)
    → (front : List Str) × (bs ≡ front ++ (drop_common bs ts).0)
      × (ts ≡ front ++ (drop_common bs ts).1)
unfolding drop_common
drop_common_parts [] ts = ([], refl, refl)
drop_common_parts (b ∷ bs) [] = ([], refl, refl)
drop_common_parts (b ∷ bs) (t ∷ ts) = elim (Str-discrete b t) [
  | yes e ↦
      let (front, p, q) = drop_common_parts bs ts in
      (b ∷ front, ground (arith, p), ground (arith, e, q))
  | no n ↦ ([], ground arith, ground arith)
]

-- Nothing is left of a list whose other is a longer one.
pub drop_common-append : (bs xs : List Str) → drop_common bs (bs ++ xs) ≡ ([], xs)
unfolding drop_common
drop_common-append [] xs = refl
drop_common-append (b ∷ bs) xs = ground (arith, drop_common-append bs xs)

pub join_components_filled : (x : Str) (xs : List Str) → x ≢ [] → join_components (x ∷ xs) ≢ []
unfolding join_components
join_components_filled x [] h e = h e
join_components_filled [] (y ∷ ys) h e = h refl
join_components_filled (c ∷ cs) (y ∷ ys) h e = cc

-- The elements of a rooted clean path are its components.
pub elements-render : (xs : List Str) → IsClean true xs → elements (render true xs) ≡ xs
unfolding join_components
elements-render [] h = ground arith
elements-render (x ∷ xs) h = ground (
  arith,
  join_components_filled x xs (IsClean-Proper (x ∷ xs) h).0.filled,
  split-join_components x xs (IsClean-NoSlash true (x ∷ xs) h),
)

-- `Rel` of rooted paths is decided by the components of the two.
pub rel_rooted :
    (base target : Str)
    → is_abs base ≡ true
    → is_abs target ≡ true
    → rel base target ≡ (
        if clean target == clean base
        then some dot
        else climb_common (drop_common (components base) (components target)))
unfolding rel clean
rel_rooted base target b t =
    let hb : IsClean true (components base) = rw b at (components-IsClean base) in
    let ht : IsClean true (components target) = rw t at (components-IsClean target) in
    let eb = elements-render (components base) hb in
    let et = elements-render (components target) ht in rw (b, t, eb, et) (ground arith)

-- The text goes above its start: `strings.HasPrefix(p, "../")`.
abbrev pub climbs : Str → Bool
climbs p = has_prefix p (dot_dot ++ slash ∷ [])

climbs→split : (p : Str) → climbs p ≡ true → (r : List Str) × (split p ≡ dot_dot ∷ r)
unfolding has_prefix split
climbs→split [] h = cc
climbs→split (a ∷ []) h = ground arith
climbs→split (a ∷ b ∷ []) h = ground arith
climbs→split (a ∷ b ∷ c ∷ p) h = (split p, ground arith)

-- A path of names is no way out of its start.
pub join_components-inside :
    (x : Str) (xs : List Str)
    → All Proper (x ∷ xs)
    → (join_components (x ∷ xs) ≢ dot)
      × (join_components (x ∷ xs) ≢ dot_dot)
      × (is_abs (join_components (x ∷ xs)) ≡ false)
      × (climbs (join_components (x ∷ xs)) ≡ false)
join_components-inside x xs h =
    let e = split-join_components x xs (IsClean-NoSlash true (x ∷ xs) (inl h)) in
    (
      λ d. h.0.not_dot (ground (arith, ap split d, e, split_self dot (omega arith))),
      λ d. h.0.not_dot_dot (ground (arith, ap split d, e, split_self dot_dot (omega arith))),
      is_abs-join_components x xs h.0.whole h.0.filled,
      elim (Bool-cases (climbs (join_components (x ∷ xs)))) [
        | inl t ↦
            let (r, q) = climbs→split (join_components (x ∷ xs)) t in absurd (h.0.not_dot_dot (cc))
        | inr f ↦ f
      ],
    )

Filled-parents :
    (bs ts : List Str) → All Proper ts → All (λ x. x ≢ []) (map (λ (b : Str). dot_dot) bs ++ ts)
Filled-parents [] [] h = tt
Filled-parents [] (t ∷ ts) h = (h.0.filled, Filled-parents [] ts h.1)
Filled-parents (b ∷ bs) ts h = (λ e. cc, Filled-parents bs ts h)

-- A way from one rooted directory to another goes down, or is `..`, or begins with `../` and goes on.
pub climb_cases :
    (bs ts : List Str) {r : Str}
    → All Proper bs
    → All Proper ts
    → climb bs ts ≡ some r
    → ((bs ≡ []) × (r ≡ join_components ts))
      ⊎ ((r ≡ dot_dot) ⊎ ((s : Str) × (s ≢ []) × (r ≡ dot_dot ++ slash ∷ s)))
climb_cases [] ts hb ht h = inl (refl, ground arith)
climb_cases (b ∷ bs) ts {r} hb ht h =
    let r_is : join_components (dot_dot ∷ map (λ (b : Str). dot_dot) bs ++ ts) ≡ r =
      ground (arith, hb.0.not_dot_dot) in
    inr (go (map (λ (b : Str). dot_dot) bs ++ ts) (Filled-parents bs ts ht) r_is)
  where
    go :
        (xs : List Str)
        → All (λ x. x ≢ []) xs
        → join_components (dot_dot ∷ xs) ≡ r
        → (r ≡ dot_dot) ⊎ ((s : Str) × (s ≢ []) × (r ≡ dot_dot ++ slash ∷ s))
    go [] f e = inl (unfold join_components in sym e)
    go (x ∷ xs) f e =
        inr (
          join_components (x ∷ xs),
          join_components_filled x xs f.0,
          unfold join_components in sym e,
        )
