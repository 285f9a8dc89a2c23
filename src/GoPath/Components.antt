-- ===== src/GoPath/Components.antt =====
-- Splitting a path at its slashes, and joining the parts.
use agent_graph.Prelude.{
  ℕ, Str, List, [], ◌∷◌, ◌++◌, ◌≡◌, ◌≢◌, refl, ap, All, arith, nat_eq, ◌∙◌, ℕ_discrete,
}
use agent_graph.GoPath.{slash, push_byte, split, join_components}

abbrev pub NoSlash : Str → Type 0
NoSlash x = All (λ c. c ≢ slash) x

All-push_byte : (c : ℕ) (xs : List Str) → c ≢ slash → All NoSlash xs → All NoSlash (push_byte c xs)
All-push_byte c [] h a = ((h, tt), tt)
All-push_byte c (x ∷ xs) h a = ((h, a.0), a.1)

-- No part holds a slash.
pub split-NoSlash : (p : Str) → All NoSlash (split p)
unfolding split
split-NoSlash [] = (tt, tt)
split-NoSlash (c ∷ cs) = elim (ℕ_discrete c slash) [
  | yes e ↦ ground (arith, split-NoSlash cs)
  | no n ↦ ground (arith, All-push_byte c (split cs) n (split-NoSlash cs))
]

pub split_self : (x : Str) → NoSlash x → split x ≡ x ∷ []
unfolding split
split_self [] h = refl
split_self (c ∷ cs) h = ground (arith, h.0, split_self cs h.1)

pub split-append_slash : (x s : Str) → NoSlash x → split (x ++ slash ∷ s) ≡ x ∷ split s
unfolding split
split-append_slash [] s h = ground arith
split-append_slash (c ∷ cs) s h = ground (arith, h.0, split-append_slash cs s h.1)

-- Joined parts without slashes split into the same parts.
pub split-join_components :
    (x : Str) (xs : List Str) → All NoSlash (x ∷ xs) → split (join_components (x ∷ xs)) ≡ x ∷ xs
unfolding join_components
split-join_components x [] h = split_self x h.0
split-join_components x (y ∷ ys) h =
    split-append_slash x (join_components (y ∷ ys)) h.0
    ∙ ap (λ r. x ∷ r) (split-join_components y ys h.1)
