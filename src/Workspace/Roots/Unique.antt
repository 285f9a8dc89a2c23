-- ===== src/Workspace/Roots/Unique.antt =====
-- workspace/discovery.go: what uniqueSorted leaves of the roots.
use agent_graph.Prelude.{
  Str, List, [], ◌∷◌, true, false, str_eq, ◌≡◌, arith, In, All, ◌↔◌, ◌⊎◌, inl, inr, Str-discrete,
  str_ltb, subst, Bool-cases, All-map,
}
use agent_graph.GoSort.{Sorted, sort_strings}
use agent_graph.GoSort.Strings.{
  str_ltb-connected, str_ltb_trans, sort_strings-Sorted, In-sort_strings,
}
use agent_graph.Workspace.Roots.{drop_repeated, unique_after, unique_sorted}

-- Each value is less than all that follow.
abbrev pub Increasing : List Str → Type 0
Increasing [] = Unit
Increasing (x ∷ xs) = All (λ y. str_ltb x y ≡ true) xs × Increasing xs

-- The values that are kept differ from the last one, and none of the list's is lost.
In-unique_after :
    (a last : Str) (xs : List Str)
    → ((last ≡ a) ⊎ In a (unique_after last xs)) ↔ ((last ≡ a) ⊎ In a xs)
unfolding unique_after
In-unique_after a last [] = ground arith
In-unique_after a last (x ∷ xs) = elim (Str-discrete x last) [
  | yes e ↦ ground (arith, e, In-unique_after a last xs)
  | no n ↦ ground (arith, n, In-unique_after a x xs)
]

-- In an ordered list a value that differs from the one before is greater.
strictly : (last x : Str) → ¬ (x ≡ last) → str_ltb x last ≡ false → str_ltb last x ≡ true
strictly last x n h = elim (Bool-cases (str_ltb last x)) [
  | inl t ↦ t
  | inr f ↦ absurd (n (str_ltb-connected x last h f))
]

unique_after_same :
    (last x : Str) (xs : List Str) → x ≡ last → unique_after last xs ≡ unique_after last (x ∷ xs)
unfolding unique_after
unique_after_same last x xs e = ground (arith, e)

unique_after_new :
    (last x : Str) (xs : List Str)
    → ¬ (x ≡ last)
    → x ∷ unique_after x xs ≡ unique_after last (x ∷ xs)
unfolding unique_after
unique_after_new last x xs n = ground (arith, n)

unique_after-Increasing :
    (last : Str) (xs : List Str)
    → Sorted str_ltb (last ∷ xs)
    → Increasing (last ∷ unique_after last xs)
unfolding unique_after
unique_after-Increasing last [] s = (tt, tt)
unique_after-Increasing last (x ∷ xs) s = elim (Str-discrete x last) [
  | yes e ↦
      subst (λ r. Increasing (last ∷ r)) (unique_after_same last x xs e)
        (unique_after-Increasing last xs (s.0.1, s.1.1))
  | no n ↦
      let less = strictly last x n s.0.0 in
      let rest = unique_after-Increasing x xs s.1 in
      subst (λ r. Increasing (last ∷ r)) (unique_after_new last x xs n)
        ((less, All-map _ _ (unique_after x xs) (λ y. str_ltb_trans last x y less) rest.0), rest)
]

drop_repeated-Increasing : (xs : List Str) → Sorted str_ltb xs → Increasing (drop_repeated xs)
drop_repeated-Increasing [] s = tt
drop_repeated-Increasing (x ∷ xs) s = unique_after-Increasing x xs s

In-drop_repeated : (a : Str) (xs : List Str) → In a (drop_repeated xs) ↔ In a xs
In-drop_repeated a [] = (λ i. i, λ i. i)
In-drop_repeated a (x ∷ xs) = In-unique_after a x xs

pub In-unique_sorted : (a : Str) (xs : List Str) → In a (unique_sorted xs) ↔ In a xs
unfolding unique_sorted
In-unique_sorted a xs = ground (arith, In-drop_repeated a (sort_strings xs), In-sort_strings a xs)

-- The result of `uniqueSorted` increases strictly, so that no value repeats, and it has the members that the
-- given values have.
pub unique_sorted-Increasing :
    (values : List Str)
    → Increasing (unique_sorted values) × ((a : Str) → In a (unique_sorted values) ↔ In a values)
unfolding unique_sorted
unique_sorted-Increasing values = (
  drop_repeated-Increasing (sort_strings values) (sort_strings-Sorted values),
  λ a. In-unique_sorted a values,
)
