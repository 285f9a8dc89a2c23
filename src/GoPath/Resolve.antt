-- ===== src/GoPath/Resolve.antt =====
-- What the stack of `Clean` holds: names, and below them, in a relative path, a run of `..`.
use agent_graph.Prelude.{
  Str, List, [], ◌∷◌, ◌++◌, ◌≡◌, ◌≢◌, refl, All, arith, ◌⊎◌, inl, inr, Bool, true, false, str_eq,
  Str-discrete,
}
use agent_graph.GoPath.{dot, dot_dot, pop_component, push_component, resolve}
use agent_graph.GoPath.Components.{NoSlash}
use mathlib.Core.List.{reverse, reverse-cons, append_assoc}

-- A component that names a file or a directory.
pub record Proper (x : Str) : Type 0 where
  pub filled : x ≢ []
  pub not_dot : x ≢ dot
  pub not_dot_dot : x ≢ dot_dot
  pub whole : NoSlash x

abbrev pub Parents : List Str → Type 0
Parents = All (λ x. x ≡ dot_dot)

abbrev pub IsStack : Bool → List Str → Type 0
IsStack rooted [] = Unit
IsStack rooted (x ∷ xs) =
    (Proper x × IsStack rooted xs) ⊎ ((x ≡ dot_dot) × (rooted ≡ false) × Parents xs)

-- The same, the first component first.
abbrev pub IsClean : Bool → List Str → Type 0
IsClean rooted [] = Unit
IsClean rooted (x ∷ xs) =
    (Proper x × All Proper xs) ⊎ ((x ≡ dot_dot) × (rooted ≡ false) × IsClean rooted xs)

Parents-IsStack : (rooted : Bool) (xs : List Str) → rooted ≡ false → Parents xs → IsStack rooted xs
Parents-IsStack rooted [] r h = tt
Parents-IsStack rooted (x ∷ xs) r h = inr (h.0, r, h.1)

pop_component-IsStack :
    (rooted : Bool) (s : List Str) → IsStack rooted s → IsStack rooted (pop_component rooted s)
pop_component-IsStack true [] h = tt
pop_component-IsStack false [] h = inr (refl, refl, tt)
pop_component-IsStack rooted (top ∷ rest) h = elim (Str-discrete top dot_dot) [
  | yes e ↦ ground (arith, h)
  | no n ↦ ground (arith, h)
]

push_component-IsStack :
    (rooted : Bool) (s : List Str) (x : Str)
    → NoSlash x
    → IsStack rooted s
    → IsStack rooted (push_component rooted s x)
push_component-IsStack rooted s x w h = elim (Str-discrete x []) [
  | yes e ↦ ground arith
  | no filled ↦ elim (Str-discrete x dot) [
    | yes e ↦ ground arith
    | no not_dot ↦ elim (Str-discrete x dot_dot) [
      | yes e ↦ ground (arith, pop_component-IsStack rooted s h)
      | no not_dot_dot ↦
          let p : Proper x = record {
            filled = filled;
            not_dot = not_dot;
            not_dot_dot = not_dot_dot;
            whole = w;
          } in
          ground (arith, p)
    ]
  ]
]

pub resolve-IsStack :
    (rooted : Bool) (s xs : List Str)
    → All NoSlash xs
    → IsStack rooted s
    → IsStack rooted (resolve rooted s xs)
unfolding resolve
resolve-IsStack rooted s [] w h = h
resolve-IsStack rooted s (x ∷ xs) w h =
    resolve-IsStack rooted (push_component rooted s x) xs w.1
      (push_component-IsStack rooted s x w.0 h)

Parents-snoc : (xs : List Str) → Parents xs → IsClean false (xs ++ dot_dot ∷ [])
Parents-snoc [] h = inr (refl, refl, tt)
Parents-snoc (x ∷ xs) h = inr (h.0, refl, Parents-snoc xs h.1)

Proper-snoc : (xs : List Str) (x : Str) → All Proper xs → Proper x → All Proper (xs ++ x ∷ [])
Proper-snoc [] x h p = (p, tt)
Proper-snoc (y ∷ ys) x h p = (h.0, Proper-snoc ys x h.1 p)

IsClean-snoc :
    (rooted : Bool) (xs : List Str) (x : Str)
    → IsClean rooted xs
    → Proper x
    → IsClean rooted (xs ++ x ∷ [])
IsClean-snoc rooted [] x h p = inl (p, tt)
IsClean-snoc rooted (y ∷ ys) x (inl h) p = inl (h.0, Proper-snoc ys x h.1 p)
IsClean-snoc rooted (y ∷ ys) x (inr h) p = inr (h.0, h.1, IsClean-snoc rooted ys x h.2 p)

Parents-append : (xs ys : List Str) → Parents xs → Parents ys → Parents (xs ++ ys)
Parents-append [] ys a b = b
Parents-append (x ∷ xs) ys a b = (a.0, Parents-append xs ys a.1 b)

Parents-reverse : (xs : List Str) → Parents xs → Parents (reverse xs)
Parents-reverse [] h = tt
Parents-reverse (x ∷ xs) h =
    rw (reverse-cons x xs) (Parents-append (reverse xs) (x ∷ []) (Parents-reverse xs h.1) (h.0, tt))

pub IsStack-reverse : (rooted : Bool) (s : List Str) → IsStack rooted s → IsClean rooted (reverse s)
IsStack-reverse rooted [] h = tt
IsStack-reverse rooted (x ∷ xs) (inl h) =
    rw (reverse-cons x xs) (IsClean-snoc rooted (reverse xs) x (IsStack-reverse rooted xs h.1) h.0)
IsStack-reverse rooted (x ∷ xs) (inr h) =
    rw (reverse-cons x xs, h.0, h.1) (Parents-snoc (reverse xs) (Parents-reverse xs h.2))

-- Names are pushed as they stand.
pub push_component-Proper :
    (rooted : Bool) (s : List Str) (x : Str) → Proper x → push_component rooted s x ≡ x ∷ s
push_component-Proper rooted s x p = ground (arith, p.filled, p.not_dot, p.not_dot_dot)

pub resolve-Proper :
    (rooted : Bool) (s xs : List Str) → All Proper xs → resolve rooted s xs ≡ reverse xs ++ s
unfolding resolve
resolve-Proper rooted s [] h = refl
resolve-Proper rooted s (x ∷ xs) h =
    rw (push_component-Proper rooted s x h.0, reverse-cons x xs, append_assoc)
      (resolve-Proper rooted (x ∷ s) xs h.1)

-- A clean list resolves to itself.
pub resolve-IsClean :
    (rooted : Bool) (s xs : List Str)
    → Parents s
    → IsClean rooted xs
    → resolve rooted s xs ≡ reverse xs ++ s
unfolding resolve
resolve-IsClean rooted s [] a h = refl
resolve-IsClean rooted s (x ∷ xs) a (inl h) = resolve-Proper rooted s (x ∷ xs) h
resolve-IsClean rooted s (x ∷ xs) a (inr h) =
    rw (pushed s a, reverse-cons x xs, append_assoc)
      (resolve-IsClean rooted (x ∷ s) xs (h.0, a) h.2)
  where
    pushed : (s : List Str) → Parents s → push_component rooted s x ≡ x ∷ s
    pushed [] a = ground (arith, h.0, h.1)
    pushed (y ∷ ys) a = ground (arith, h.0, a.0)

pub resolve-append :
    (rooted : Bool) (s xs ys : List Str)
    → resolve rooted s (xs ++ ys) ≡ resolve rooted (resolve rooted s xs) ys
unfolding resolve
resolve-append rooted s [] ys = refl
resolve-append rooted s (x ∷ xs) ys = resolve-append rooted (push_component rooted s x) xs ys

-- Below a root every component is a name.
pub IsClean-Proper : (xs : List Str) → IsClean true xs → All Proper xs
IsClean-Proper [] h = tt
IsClean-Proper (x ∷ xs) (inl h) = h
IsClean-Proper (x ∷ xs) (inr h) = ground arith

pub IsClean-NoSlash : (rooted : Bool) (xs : List Str) → IsClean rooted xs → All NoSlash xs
IsClean-NoSlash rooted [] h = tt
IsClean-NoSlash rooted (x ∷ xs) (inl h) = (h.0.whole, Proper-NoSlash xs h.1)
  where
    Proper-NoSlash : (ys : List Str) → All Proper ys → All NoSlash ys
    Proper-NoSlash [] a = tt
    Proper-NoSlash (y ∷ ys) a = (a.0.whole, Proper-NoSlash ys a.1)
IsClean-NoSlash rooted (x ∷ xs) (inr h) = (rw h.0 dot_dot-NoSlash, IsClean-NoSlash rooted xs h.2)
  where
    dot_dot-NoSlash : NoSlash dot_dot
    dot_dot-NoSlash = omega arith
