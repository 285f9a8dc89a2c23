-- ===== src/Indexer/Below.antt =====
-- indexer/queue.go: normalizeEventPath accepts exactly the paths below the workspace.
use agent_graph.Prelude.{
  Str, List, [], ◌∷◌, ◌++◌, some, ok, true, false, ◌≡◌, ◌≢◌, ◌↔◌, refl, sym, ap, arith, inl, inr,
  ◌∙◌, str_eq, Str-discrete, All, length, Bool-cases, subst, length-append, List-cases,
}
use agent_graph.GoPath.{
  slash, dot_dot, is_abs, clean, join, rel, components, join_components, drop_common, climb,
  has_prefix,
}
use agent_graph.GoPath.Resolve.{Proper, IsClean-Proper}
use agent_graph.GoPath.Clean.{components-IsClean, clean_parts}
use agent_graph.GoPath.Rel.{
  rel_rooted, drop_common_parts, drop_common-append, climb_cases, climbs, join_components-inside,
}
use agent_graph.Indexer.EventPath.{
  is_parent_path, absolute_path, leaves_workspace, normalize_event_path,
}
use mathlib.Core.List.{append-nil}

is_parent_path_up : (s : Str) → s ≢ [] → is_parent_path (dot_dot ++ slash ∷ s) ≡ true
unfolding is_parent_path
is_parent_path_up [] h = absurd (h refl)
is_parent_path_up (c ∷ s) h = ground arith

-- The only way to a parent that is no prefix `../` with more behind it is the prefix alone.
is_parent_path→climbs : (p : Str) → is_parent_path p ≡ true → climbs p ≡ true
unfolding is_parent_path has_prefix
is_parent_path→climbs [] h = ground arith
is_parent_path→climbs (a ∷ []) h = ground arith
is_parent_path→climbs (a ∷ b ∷ []) h = ground arith
is_parent_path→climbs (a ∷ b ∷ c ∷ p) h = ground arith

stays :
    (x : Str) (xs : List Str)
    → All Proper (x ∷ xs)
    → leaves_workspace (join_components (x ∷ xs)) ≡ false
unfolding leaves_workspace
stays x xs h =
    let (not_dot, not_dot_dot, relative, level) = join_components-inside x xs h in
    let p = join_components (x ∷ xs) in
    elim (Bool-cases (is_parent_path p)) [
      | inl t ↦ cc (is_parent_path→climbs p t)
      | inr f ↦ ground (arith, not_dot, not_dot_dot, relative, f)
    ]

All-split {κ} :
    {A : Type 0} (P : A → Type κ) (xs ys : List A) → All P (xs ++ ys) → All P xs × All P ys
All-split P [] ys h = (tt, h)
All-split P (x ∷ xs) ys h = let (a, b) = All-split P xs ys h.1 in ((h.0, a), b)

append_longer : (xs : List Str) (y : Str) (ys : List Str) → xs ++ y ∷ ys ≢ xs
append_longer xs y ys e = omega (arith, ap length e, length-append xs (y ∷ ys))

-- The path lies below the workspace, at this relative path.
abbrev pub IsBelow : Str → Str → Str → Type 0
IsBelow workspace target relative =
    (x : Str) × (xs : List Str) × (components target ≡ components workspace ++ x ∷ xs)
    × (relative ≡ join_components (x ∷ xs))

module _ (workspace : Str) (rooted : is_abs workspace ≡ true) where
  absolute_path_rooted : (path : Str) → path ≢ [] → is_abs (absolute_path workspace path) ≡ true
  absolute_path_rooted path filled = elim (Bool-cases (is_abs path)) [
    | inl a ↦ ground (arith, a, (clean_parts path).0)
    | inr r ↦
        ground
          (arith, r, (clean_parts (join workspace path)).0, joined workspace path rooted filled)
  ]
    where
      joined : (w p : Str) → is_abs w ≡ true → p ≢ [] → is_abs (join w p) ≡ true
      joined [] p a f = cc
      joined (c ∷ w) [] a f = absurd (f refl)
      joined (c ∷ w) (d ∷ p) a f = unfold join in (clean_parts ((c ∷ w) ++ slash ∷ d ∷ p)).0 ∙ a

  Proper-components : (p : Str) → is_abs p ≡ true → All Proper (components p)
  Proper-components p a = IsClean-Proper (components p) (rw a at (components-IsClean p))

  same_place :
      (target : Str) → clean target ≡ clean workspace → components target ≡ components workspace
  same_place target e = sym (clean_parts target).1 ∙ (ap components e ∙ (clean_parts workspace).1)

  same_text :
      (target : Str)
      → is_abs target ≡ true
      → components target ≡ components workspace
      → clean target ≡ clean workspace
  unfolding clean
  same_text target a e = rw (a, rooted, e) refl

  rel-IsBelow :
      (target relative : Str)
      → is_abs target ≡ true
      → rel workspace target ≡ some relative
      → leaves_workspace relative ≡ false
      → IsBelow workspace target relative
  unfolding leaves_workspace
  rel-IsBelow target relative a h inside = elim (Str-discrete (clean target) (clean workspace)) [
    | yes e ↦ ground (arith, h, inside, rel_rooted workspace target rooted a)
    | no apart ↦
        let (front, cw, ct) = drop_common_parts (components workspace) (components target) in
        let bs = (drop_common (components workspace) (components target)).0 in
        let ts = (drop_common (components workspace) (components target)).1 in
        let pb =
          (All-split Proper front bs
            (subst (All Proper) cw (Proper-components workspace rooted))).1 in
        let pt =
          (All-split Proper front ts (subst (All Proper) ct (Proper-components target a))).1 in
        let way : climb bs ts ≡ some relative =
          ground (arith, rel_rooted workspace target rooted a) in
        elim (climb_cases bs ts pb pt way) [
          | inl (down, r) ↦
              let f : components workspace ≡ front =
                cw ∙ (ap (λ l. front ++ l) down ∙ append-nil front) in
              elim (List-cases ts) [
                | inl e ↦ absurd (
                    apart (
                      same_text target a
                        (ct ∙ (ap (λ l. front ++ l) e ∙ (append-nil front ∙ sym f)))))
                | inr (x, xs, e) ↦ (
                  x,
                  xs,
                  ct ∙ (ap (λ l. front ++ l) e ∙ ap (λ l. l ++ x ∷ xs) (sym f)),
                  r ∙ ap join_components e,
                )
              ]
          | inr (inl up) ↦ ground (arith, up)
          | inr (inr (s, filled, up)) ↦ ground (arith, up, is_parent_path_up s filled)
        ]
  ]

  IsBelow-rel :
      (target relative : Str)
      → is_abs target ≡ true
      → IsBelow workspace target relative
      → (rel workspace target ≡ some relative) × (leaves_workspace relative ≡ false)
  IsBelow-rel target relative a (x, xs, parts, r) = (
    rel_rooted workspace target rooted a ∙ elim (Str-discrete (clean target) (clean workspace)) [
      | yes e ↦ absurd (append_longer (components workspace) x xs (sym parts ∙ same_place target e))
      | no n ↦ ground (
        arith,
        n,
        ap (drop_common (components workspace)) parts,
        drop_common-append (components workspace) (x ∷ xs),
        r,
      )
    ],
    rw r (
        stays x xs
          (All-split Proper (components workspace) (x ∷ xs)
            (subst (All Proper) parts (Proper-components target a))).1),
  )

-- In a rooted workspace, an event path is accepted exactly if it names something below the workspace, and
-- then with the path from there to it: its components are those of the workspace followed by those of the
-- result.
pub normalize_event_path_iff :
    (workspace : Str) (rooted : is_abs workspace ≡ true) (path relative : Str)
    → path ≢ []
    → (normalize_event_path workspace path ≡ ok relative)
      ↔ IsBelow workspace (absolute_path workspace path) relative
unfolding normalize_event_path
normalize_event_path_iff workspace rooted path relative filled =
    let a = absolute_path_rooted workspace rooted path filled in
    (
      λ h.
          let (e, f) = parts h in
          rel-IsBelow workspace rooted (absolute_path workspace path) relative a e f,
      λ b.
          let (e, f) = IsBelow-rel workspace rooted (absolute_path workspace path) relative a b in
          ground (arith, filled, e, f),
    )
  where
    parts :
        normalize_event_path workspace path ≡ ok relative
        → (rel workspace (absolute_path workspace path) ≡ some relative)
          × (leaves_workspace relative ≡ false)
    parts h = (ground arith, ground arith)
