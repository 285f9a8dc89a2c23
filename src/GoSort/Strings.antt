-- ===== src/GoSort/Strings.antt =====
-- The order of Go's strings is total, and sorting by it.
use agent_graph.Prelude.{
  Str, List, [], ◌∷◌, true, false, nat_eq, ◌≡◌, refl, arith, In, str_ltb, ap₂, ℕ_discrete, ◌↔◌,
  Bool-cases, inl, inr,
}
use agent_graph.GoSort.{IsWeakOrder, Sorted, sort_strings, sort_slice-Sorted, In-sort_slice}

pub str_ltb-asym : (a b : Str) → str_ltb a b ≡ true → str_ltb b a ≡ false
unfolding str_ltb
str_ltb-asym [] [] h = refl
str_ltb-asym [] (d ∷ ds) h = refl
str_ltb-asym (c ∷ cs) [] h = absurd (ground arith)
str_ltb-asym (c ∷ cs) (d ∷ ds) h = ground (arith, str_ltb-asym cs ds)

-- Two texts that are not less than each other are one.
pub str_ltb-connected : (a b : Str) → str_ltb a b ≡ false → str_ltb b a ≡ false → a ≡ b
unfolding str_ltb
str_ltb-connected [] [] h k = refl
str_ltb-connected [] (d ∷ ds) h k = absurd (ground arith)
str_ltb-connected (c ∷ cs) [] h k = absurd (ground arith)
str_ltb-connected (c ∷ cs) (d ∷ ds) h k = elim (ℕ_discrete c d) [
  | yes e ↦ ap₂ ◌∷◌ e (str_ltb-connected cs ds (ground arith) (ground arith))
  | no n ↦ absurd (ground arith)
]

pub str_ltb_not_less_trans :
    (a b c : Str) → str_ltb b a ≡ false → str_ltb c b ≡ false → str_ltb c a ≡ false
unfolding str_ltb
str_ltb_not_less_trans [] [] c h k = k
str_ltb_not_less_trans [] (y ∷ b) [] h k = refl
str_ltb_not_less_trans [] (y ∷ b) (z ∷ c) h k = refl
str_ltb_not_less_trans (x ∷ a) [] c h k = absurd (ground arith)
str_ltb_not_less_trans (x ∷ a) (y ∷ b) [] h k = absurd (ground arith)
str_ltb_not_less_trans (x ∷ a) (y ∷ b) (z ∷ c) h k = ground (arith, str_ltb_not_less_trans a b c)

pub str_ltb-IsWeakOrder : IsWeakOrder str_ltb
str_ltb-IsWeakOrder = record { asym = str_ltb-asym; not_less_trans = str_ltb_not_less_trans }

pub sort_strings-Sorted : (xs : List Str) → Sorted str_ltb (sort_strings xs)
unfolding sort_strings
sort_strings-Sorted xs = sort_slice-Sorted str_ltb str_ltb-IsWeakOrder xs

pub In-sort_strings : (a : Str) (xs : List Str) → In a (sort_strings xs) ↔ In a xs
unfolding sort_strings
In-sort_strings a xs = In-sort_slice str_ltb a xs

pub str_ltb_trans : (a b c : Str) → str_ltb a b ≡ true → str_ltb b c ≡ true → str_ltb a c ≡ true
str_ltb_trans a b c h k = elim (Bool-cases (str_ltb a c)) [
  | inl t ↦ t
  | inr f ↦ ground (arith, k, str_ltb_not_less_trans c a b f (str_ltb-asym a b h))
]
