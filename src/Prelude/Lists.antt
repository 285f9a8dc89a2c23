-- ===== src/Prelude/Lists.antt =====
-- Lists measured and indexed by native numbers, and predicates over lists.
use Prim.Native.Nat.{ℕ, zero, suc, ◌+◌, ◌-◌, min}
use mathlib.Core.Path.{◌≡◌, refl, sym, ap, subst}
use mathlib.Core.Logic.{◌⊎◌, ◌↔◌, inl, inr}
use mathlib.Core.List.{List, [], ◌∷◌, ◌++◌, map, map-id}
use native.Mathlib.Omega.{arith}

module _ {ℓ} {A : Type ℓ} where
  abbrev pub length : List A → ℕ
  length [] = 0
  length (x ∷ xs) = suc (length xs)

  abbrev pub take : ℕ → List A → List A
  take zero xs = []
  take (suc n) [] = []
  take (suc n) (x ∷ xs) = x ∷ take n xs

  abbrev pub drop : ℕ → List A → List A
  drop zero xs = xs
  drop (suc n) [] = []
  drop (suc n) (x ∷ xs) = drop n xs

  pub length-append : (xs ys : List A) → length (xs ++ ys) ≡ length xs + length ys
  length-append [] ys = omega arith
  length-append (x ∷ xs) ys = omega (arith, length-append xs ys)

  pub take-append-drop : (n : ℕ) (xs : List A) → take n xs ++ drop n xs ≡ xs
  take-append-drop zero xs = refl
  take-append-drop (suc n) [] = refl
  take-append-drop (suc n) (x ∷ xs) = ap (λ r. x ∷ r) (take-append-drop n xs)

  pub length-take : (n : ℕ) (xs : List A) → length (take n xs) ≡ min n (length xs)
  length-take zero xs = omega arith
  length-take (suc n) [] = omega arith
  length-take (suc n) (x ∷ xs) = omega (arith, length-take n xs)

  pub length-drop : (n : ℕ) (xs : List A) → length (drop n xs) ≡ length xs - n
  length-drop zero xs = omega arith
  length-drop (suc n) [] = omega arith
  length-drop (suc n) (x ∷ xs) = omega (arith, length-drop n xs)

-- Membership with the position kept.
abbrev pub In : {A : Type 0} → A → List A → Type 0
In a [] = ⊥
In a (x ∷ xs) = (x ≡ a) ⊎ In a xs

abbrev pub All {ℓ κ} : {A : Type ℓ} → (A → Type κ) → List A → Type κ
All P [] = Unit
All P (x ∷ xs) = P x × All P xs

-- No two positions hold one value.
abbrev pub Distinct : {A : Type 0} → List A → Type 0
Distinct [] = Unit
Distinct (x ∷ xs) = (¬ In x xs) × Distinct xs

pub All-In {κ} : {A : Type 0} (P : A → Type κ) {a : A} (xs : List A) → All P xs → In a xs → P a
All-In P [] h i = elim i [ ]
All-In P (x ∷ xs) h (inl e) = subst P e h.0
All-In P (x ∷ xs) h (inr i) = All-In P xs h.1 i

pub All-map {κ μ} :
    {A : Type 0} (P : A → Type κ) (Q : A → Type μ) (xs : List A)
    → ((a : A) → P a → Q a)
    → All P xs
    → All Q xs
All-map P Q [] f h = tt
All-map P Q (x ∷ xs) f h = (f x h.0, All-map P Q xs f h.1)

module _ {A : Type 0} where
  pub In-append : (a : A) (xs ys : List A) → In a (xs ++ ys) → In a xs ⊎ In a ys
  In-append a [] ys i = inr i
  In-append a (x ∷ xs) ys (inl e) = inl (inl e)
  In-append a (x ∷ xs) ys (inr i) = elim (In-append a xs ys i) [
    | inl j ↦ inl (inr j)
    | inr j ↦ inr j
  ]

  pub In-append_left : (a : A) (xs ys : List A) → In a xs → In a (xs ++ ys)
  In-append_left a [] ys i = elim i [ ]
  In-append_left a (x ∷ xs) ys (inl e) = inl e
  In-append_left a (x ∷ xs) ys (inr i) = inr (In-append_left a xs ys i)

  pub In-append_right : (a : A) (xs ys : List A) → In a ys → In a (xs ++ ys)
  In-append_right a [] ys i = i
  In-append_right a (x ∷ xs) ys i = inr (In-append_right a xs ys i)

pub In-map : {A B : Type 0} (f : A → B) (a : A) (xs : List A) → In a xs → In (f a) (map f xs)
In-map f a [] i = elim i [ ]
In-map f a (x ∷ xs) (inl e) = inl (ap f e)
In-map f a (x ∷ xs) (inr i) = inr (In-map f a xs i)

pub map-In :
    {A B : Type 0} (f : A → B) {b : B} (xs : List A)
    → In b (map f xs)
    → (a : A) × In a xs × (f a ≡ b)
map-In f [] i = elim i [ ]
map-In f (x ∷ xs) (inl e) = (x, inl refl, e)
map-In f (x ∷ xs) (inr i) = let (a, j, e) = map-In f xs i in (a, inr j, e)

-- Distinct keys, none of them seen before: what a loop that fills a map of keys still accepts.
pub All-unseen-cons :
    {A K : Type 0} (f : A → K) (k : K) (seen : List K) (xs : List A)
    → All (λ x. ¬ In (f x) (k ∷ seen)) xs ↔ (All (λ x. ¬ In (f x) seen) xs × (¬ In k (map f xs)))
All-unseen-cons f k seen [] = (λ _. (tt, λ i. i), λ _. tt)
All-unseen-cons f k seen (x ∷ xs) = (
  λ h.
      let (a, b) = (All-unseen-cons f k seen xs).0 h.1 in
      ((λ i. h.0 (inr i), a), λ i. elim i [ inl e ↦ h.0 (inl (sym e)) | inr j ↦ b j ]),
  λ h. (
    λ i. elim i [ inl e ↦ h.1 (inl (sym e)) | inr j ↦ h.0.0 j ],
    (All-unseen-cons f k seen xs).1 (h.0.1, λ i. h.1 (inr i)),
  ),
)

pub All-not-In-nil : {A K : Type 0} (f : A → K) (xs : List A) → All (λ x. ¬ In (f x) []) xs
All-not-In-nil f [] = tt
All-not-In-nil f (x ∷ xs) = (λ i. i, All-not-In-nil f xs)

pub All-unseen-cons_self :
    {K : Type 0} (k : K) (seen xs : List K)
    → All (λ x. ¬ In x (k ∷ seen)) xs ↔ (All (λ x. ¬ In x seen) xs × (¬ In k xs))
All-unseen-cons_self {K} k seen xs = rw (map-id xs) at (All-unseen-cons (λ (x : K). x) k seen xs)

pub append-injective :
    {A : Type 0} (xs ys s t : List A)
    → length xs ≡ length ys
    → xs ++ s ≡ ys ++ t
    → (xs ≡ ys) × (s ≡ t)
append-injective [] [] s t l h = (refl, h)
append-injective [] (y ∷ ys) s t l h = absurd (omega arith)
append-injective (x ∷ xs) [] s t l h = absurd (omega arith)
append-injective (x ∷ xs) (y ∷ ys) s t l h =
    let (p, q) = append-injective xs ys s t (omega arith) (cc) in (cc, q)
