-- ===== src/GoSort.antt =====
-- Go's `sort.Strings` and `sort.Slice`, as insertion: an order that is total on the values leaves one answer,
-- and where it is not, Go leaves the order of equals open.
pub mod Strings
use agent_graph.Prelude.{
  ℕ, Str, List, [], ◌∷◌, Bool, true, false, if◌then◌else◌, length, ◌+◌, ◌≡◌, refl, arith, In, All,
  ◌⊎◌, inl, inr, ◌↔◌, Bool-cases, str_ltb, subst, sym, All-map, if_ind, ltb,
}

module _ {A : Type 0} (less : A → A → Bool) where
  unfoldable pub insert : A → List A → List A
  insert x [] = x ∷ []
  insert x (y ∷ ys) = let rest = insert x ys in if less y x then y ∷ rest else x ∷ y ∷ ys

  -- `sort.Slice` with this comparison.
  unfoldable pub sort_slice : List A → List A
  sort_slice [] = []
  sort_slice (x ∷ xs) = insert x (sort_slice xs)

  pub In-insert : (a x : A) (xs : List A) → In a (insert x xs) ↔ ((x ≡ a) ⊎ In a xs)
  unfolding insert
  In-insert a x [] = ground arith
  In-insert a x (y ∷ ys) = ground (arith, In-insert a x ys)

  -- Sorting keeps the members.
  pub In-sort_slice : (a : A) (xs : List A) → In a (sort_slice xs) ↔ In a xs
  unfolding sort_slice
  In-sort_slice a [] = ground arith
  In-sort_slice a (x ∷ xs) = ground (arith, In-insert a x (sort_slice xs), In-sort_slice a xs)

  length-insert : (x : A) (xs : List A) → length (insert x xs) ≡ 1 + length xs
  unfolding insert
  length-insert x [] = refl
  length-insert x (y ∷ ys) = ground (arith, length-insert x ys)

  pub length-sort_slice : (xs : List A) → length (sort_slice xs) ≡ length xs
  unfolding sort_slice
  length-sort_slice [] = refl
  length-sort_slice (x ∷ xs) = omega (arith, length-insert x (sort_slice xs), length-sort_slice xs)

  -- No value stands behind a greater one.
  abbrev pub Sorted : List A → Type 0
  Sorted [] = Unit
  Sorted (x ∷ xs) = All (λ y. less y x ≡ false) xs × Sorted xs

  -- What `sort.Slice` asks of its comparison.
  pub record IsWeakOrder : Type 0 where
    pub asym : (a b : A) → less a b ≡ true → less b a ≡ false
    pub not_less_trans : (a b c : A) → less b a ≡ false → less c b ≡ false → less c a ≡ false

  All-insert : (P : A → Type 0) (x : A) (xs : List A) → P x → All P xs → All P (insert x xs)
  unfolding insert
  All-insert P x [] p h = (p, tt)
  All-insert P x (y ∷ ys) p h =
      if_ind (All P) (less y x) (λ _. (h.0, All-insert P x ys p h.1)) (λ _. (p, h))

  insert-Sorted : IsWeakOrder → (x : A) (xs : List A) → Sorted xs → Sorted (insert x xs)
  unfolding insert
  insert-Sorted w x [] s = (tt, tt)
  insert-Sorted w x (y ∷ ys) s =
      if_ind Sorted (less y x)
        (λ t.
          (All-insert (λ z. less z y ≡ false) x ys (w.asym y x t) s.0, insert-Sorted w x ys s.1))
        (λ f.
          ((f, All-map (λ z. less z y ≡ false) _ ys (λ z h. w.not_less_trans x y z f h) s.0), s))

  pub sort_slice-Sorted : IsWeakOrder → (xs : List A) → Sorted (sort_slice xs)
  unfolding sort_slice
  sort_slice-Sorted w [] = tt
  sort_slice-Sorted w (x ∷ xs) = insert-Sorted w x (sort_slice xs) (sort_slice-Sorted w xs)

-- `sort.Strings`.
unfoldable pub sort_strings : List Str → List Str
unfolding sort_slice
sort_strings = sort_slice str_ltb

pub ltb-IsWeakOrder : IsWeakOrder ltb
ltb-IsWeakOrder = record {
  asym = λ a b h. ground arith;
  not_less_trans = λ a b c h k. ground arith;
}
