-- ===== src/GoStrings/Trim.antt =====
-- Trimming and lower case do not disturb one another, and are done once.
use agent_graph.Prelude.{
  ℕ, Str, [], ◌∷◌, ◌≡◌, refl, arith, nat_eq, Bool-cases, List-cases, inl, inr,
}
use agent_graph.GoStrings.{is_space, trim_right, lower, to_lower}

pub lower-lower : (c : ℕ) → lower (lower c) ≡ lower c
lower-lower c = ground arith

is_space-lower : (c : ℕ) → is_space (lower c) ≡ is_space c
is_space-lower c = ground arith

pub to_lower-to_lower : (s : Str) → to_lower (to_lower s) ≡ to_lower s
to_lower-to_lower [] = refl
to_lower-to_lower (c ∷ s) = cc (lower-lower c, to_lower-to_lower s)

pub trim_right-trim_right : (s : Str) → trim_right (trim_right s) ≡ trim_right s
unfolding trim_right
trim_right-trim_right [] = refl
trim_right-trim_right (c ∷ s) = ground (arith, trim_right-trim_right s)

pub trim_right-to_lower : (s : Str) → trim_right (to_lower s) ≡ to_lower (trim_right s)
unfolding trim_right
trim_right-to_lower [] = refl
trim_right-to_lower (c ∷ s) =
    rw (is_space-lower c, trim_right-to_lower s)
      (elim (Bool-cases (is_space c)) [
        | inr f ↦ rw f refl
        | inl t ↦ elim (List-cases (trim_right s)) [
          | inl e ↦ rw (t, e) refl
          | inr (b, r, e) ↦ rw (t, e) refl
        ]
      ])
