-- ===== src/Prelude/Keys.antt =====
-- Types whose equality is decided, and Go's strings (bytes).
use Prim.Native.Nat.{ℕ}
use Prim.Native.String.{String}
use Prim.Native.Char.{code}
use mathlib.Core.Path.{◌≡◌, refl}
use mathlib.Core.Bool.{Bool, true, false, ◌||◌}
use mathlib.Core.Logic.{inl, inr}
use mathlib.Core.List.{List, [], ◌∷◌, map}
use mathlib.Core.Option.{Option, none, some}
use native.Mathlib.Decide.{ℕ_discrete}
use native.Mathlib.Omega.{arith}
use agent_graph.Prelude.Tests.{if◌then◌else◌, Bool-cases, ltb}
use agent_graph.Prelude.Lists.{In, In-map, Distinct}

pub record Eq {ℓ} (A : Type ℓ) : Type ℓ where
  pub dec : Discrete A

infix 50 ◌==◌
abbrev pub ◌==◌ {ℓ} : {A : Type ℓ} ⦃e : Eq A⦄ → A → A → Bool
◌==◌ ⦃e⦄ a b = elim (e.dec a b) [ yes _ ↦ true | no _ ↦ false ]

abbrev pub Str : Type 0
Str = List ℕ

abbrev pub bytes : String → Str
bytes String.[] = []
bytes (String.◌∷◌ c s) = code c ∷ bytes s

unfoldable pub Str-discrete : Discrete Str
Str-discrete = hlevel ℕ_discrete

instance abbrev pub str_eq : Eq Str
str_eq = record { dec = Str-discrete }

-- A Go `map[K]struct{}` as the list of its keys.
module _ {A : Type 0} ⦃e : Eq A⦄ where
  abbrev pub mem : A → List A → Bool
  mem a [] = false
  mem a (x ∷ xs) = x == a || mem a xs

  pub mem→In : (a : A) (xs : List A) → mem a xs ≡ true → In a xs
  mem→In a [] h = cc
  mem→In a (x ∷ xs) h = ground (arith, mem→In a xs)

  pub In→mem : (a : A) (xs : List A) → In a xs → mem a xs ≡ true
  In→mem a [] h = elim h [ ]
  In→mem a (x ∷ xs) h = ground (arith, In→mem a xs)

  pub not-mem→not-In : (a : A) (xs : List A) → mem a xs ≡ false → ¬ In a xs
  not-mem→not-In a xs h i = ground (arith, In→mem a xs)

  pub not-In→not-mem : (a : A) (xs : List A) → ¬ In a xs → mem a xs ≡ false
  not-In→not-mem a xs h = elim (Bool-cases (mem a xs)) [
    | inl t ↦ absurd (h (mem→In a xs t))
    | inr f ↦ f
  ]

-- A Go map as an association list: an assignment stands in front of the older ones.
module _ {A : Type 0} {V : Type 0} ⦃e : Eq A⦄ where
  abbrev pub lookup : A → List (A × V) → Option V
  lookup a [] = none
  lookup a ((k, v) ∷ m) = if k == a then some v else lookup a m

  pub lookup→In : (a : A) {v : V} (m : List (A × V)) → lookup a m ≡ some v → In (a, v) m
  lookup→In a [] h = cc
  lookup→In a {v} ((k, w) ∷ m) h = elim (e.dec k a) [
    | yes p ↦ inl (ground arith)
    | no p ↦ inr (lookup→In a m (ground arith))
  ]

  pub In→lookup :
      (a : A) {v : V} (m : List (A × V))
      → Distinct (map (λ p. p.0) m)
      → In (a, v) m
      → lookup a m ≡ some v
  In→lookup a [] d i = elim i [ ]
  In→lookup a ((k, w) ∷ m) d (inl p) = ground arith
  In→lookup a {v} ((k, w) ∷ m) d (inr i) =
      ground (arith, In→lookup a m d.1 i, In-map (λ (p : A × V). p.0) (a, v) m i)

  pub lookup-none : (a : A) (m : List (A × V)) → lookup a m ≡ none → ¬ In a (map (λ p. p.0) m)
  lookup-none a [] h i = elim i [ ]
  lookup-none a ((k, w) ∷ m) h i = ground (arith, lookup-none a m)

  pub not-In→lookup : (a : A) (m : List (A × V)) → ¬ In a (map (λ p. p.0) m) → lookup a m ≡ none
  not-In→lookup a [] h = refl
  not-In→lookup a ((k, w) ∷ m) h = ground (arith, h, not-In→lookup a m (λ i. h (inr i)))

  pub lookup-some→In :
      (a : A) {v : V} (m : List (A × V)) → lookup a m ≡ some v → In a (map (λ p. p.0) m)
  lookup-some→In a m h = In-map (λ (p : A × V). p.0) _ m (lookup→In a m h)

instance abbrev pub nat_eq : Eq ℕ
nat_eq = record { dec = ℕ_discrete }

-- Go's `m[k] = v` and `delete(m, k)` on a map that is also walked: one entry for each key.
module _ {A : Type 0} {V : Type 0} ⦃e : Eq A⦄ where
  abbrev pub assign : A → V → List (A × V) → List (A × V)
  assign a v [] = (a, v) ∷ []
  assign a v ((k, w) ∷ m) = if k == a then (k, v) ∷ m else (k, w) ∷ assign a v m

  abbrev pub delete : A → List (A × V) → List (A × V)
  delete a [] = []
  delete a ((k, w) ∷ m) = let rest = delete a m in if k == a then rest else (k, w) ∷ rest

  pub lookup-assign :
      (a b : A) (v : V) (m : List (A × V))
      → lookup b (assign a v m) ≡ (if a == b then some v else lookup b m)
  lookup-assign a b v [] = ground arith
  lookup-assign a b v ((k, w) ∷ m) = ground (arith, lookup-assign a b v m)

  pub lookup-delete :
      (a b : A) (m : List (A × V)) → lookup b (delete a m) ≡ (if a == b then none else lookup b m)
  lookup-delete a b [] = ground arith
  lookup-delete a b ((k, w) ∷ m) = ground (arith, lookup-delete a b m)

-- Go compares strings byte by byte.
unfoldable pub str_ltb : Str → Str → Bool
str_ltb [] [] = false
str_ltb [] (d ∷ ds) = true
str_ltb (c ∷ cs) [] = false
str_ltb (c ∷ cs) (d ∷ ds) = let rest = str_ltb cs ds in if c == d then rest else ltb c d
