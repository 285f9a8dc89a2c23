-- ===== src/GoPath/Parent.antt =====
-- `path.Dir`, `path.Base` and the loops that go from a path to its parents.
use agent_graph.Prelude.{
  ℕ, zero, suc, ◌≤◌, Str, List, [], ◌∷◌, ◌++◌, Option, none, some, false, ◌==◌, str_eq, nat_eq,
  if◌then◌else◌, is_empty, ◌≡◌, ◌≢◌, refl, sym, ap, arith, All, length, Str-discrete, ℕ_discrete,
  length-append, ◌∙◌, inl, inr, List-cases, ◌+◌, ◌<◌, subst,
}
use mathlib.Core.List.{reverse, reverse-cons, append_assoc}
use mathlib.Core.Option
use agent_graph.GoPath.{slash, dot, split, join_components, clean, resolve, components}
use agent_graph.GoPath.Components.{NoSlash, split-join_components}
use agent_graph.GoPath.Resolve.{Proper, IsClean-NoSlash, resolve-append}
use agent_graph.GoPath.Rel.{join_components-inside}
use agent_graph.GoPath.Clean.{resolve_clean, is_abs-join_components}

-- The text up to its last slash, that slash included: the first result of `path.Split`.
unfoldable pub dir_part : Str → Str
dir_part [] = []
dir_part (c ∷ cs) =
    let rest = dir_part cs in
    if is_empty rest then (if c == slash then c ∷ [] else []) else c ∷ rest

-- `path.Dir`, and `filepath.Dir` on Unix.
unfoldable pub dir : Str → Str
dir p = clean (dir_part p)

-- The text behind its last slash.
unfoldable pub file_part : Str → Str
file_part [] = []
file_part (c ∷ cs) =
    let rest = file_part cs in
    if is_empty (dir_part cs) then (if c == slash then cs else c ∷ cs) else rest

unfoldable pub strip_slashes : Str → Str
strip_slashes [] = []
strip_slashes (c ∷ cs) =
    let rest = strip_slashes cs in
    if c == slash then (if is_empty rest then [] else c ∷ rest) else c ∷ rest

-- `path.Base`, and `filepath.Base` on Unix.
unfoldable pub base : Str → Str
base [] = dot
base (c ∷ cs) =
    let name = file_part (strip_slashes (c ∷ cs)) in if is_empty name then slash ∷ [] else name

-- The rounds of `for d := p; d != "."; d = path.Dir(d)`; `none` if they are not enough.
unfoldable pub parents : ℕ → Str → Option (List Str)
parents zero p = none
parents (suc fuel) p =
    let rest = parents fuel (dir p) in if p == dot then some [] else Option.map (λ ds. p ∷ ds) rest

-- The paths of a list of components, the last one first, and of its fronts.
abbrev pub front_paths : List Str → List Str
front_paths [] = []
front_paths (x ∷ rs) = join_components (reverse (x ∷ rs)) ∷ front_paths rs

dir_part_name : (x : Str) → NoSlash x → dir_part x ≡ []
unfolding dir_part
dir_part_name [] h = refl
dir_part_name (c ∷ cs) h = ground (arith, h.0, dir_part_name cs h.1)

dir_part-append : (s x : Str) → NoSlash x → dir_part (s ++ slash ∷ x) ≡ s ++ slash ∷ []
unfolding dir_part
dir_part-append [] x h = ground (arith, dir_part_name x h)
dir_part-append (c ∷ []) x h = ground (arith, dir_part_name x h)
dir_part-append (c ∷ d ∷ s) x h = ground (arith, dir_part-append (d ∷ s) x h)

join_components-append :
    (x : Str) (xs : List Str) (y : Str)
    → join_components ((x ∷ xs) ++ y ∷ []) ≡ join_components (x ∷ xs) ++ slash ∷ y
unfolding join_components
join_components-append x [] y = refl
join_components-append x (z ∷ zs) y =
    ap (λ r. x ++ slash ∷ r) (join_components-append z zs y)
    ∙ sym (append_assoc x (slash ∷ join_components (z ∷ zs)) (slash ∷ y))

All-append_end :
    (P : Str → Type 0) (xs : List Str) (y : Str) → All P xs → P y → All P (xs ++ y ∷ [])
All-append_end P [] y h p = (p, tt)
All-append_end P (x ∷ xs) y h p = (h.0, All-append_end P xs y h.1 p)

resolve_empty_end : (stack : List Str) → resolve false stack ([] ∷ []) ≡ stack
unfolding resolve Str-discrete
resolve_empty_end stack = refl

-- A slash behind a clean path of names goes.
clean-slash :
    (x : Str) (xs : List Str)
    → All Proper (x ∷ xs)
    → clean (join_components (x ∷ xs) ++ slash ∷ []) ≡ join_components (x ∷ xs)
unfolding clean components
clean-slash x xs h =
    let whole = IsClean-NoSlash false (x ∷ xs) (inl h) in
    let parts =
      split-join_components x (xs ++ [] ∷ []) (All-append_end NoSlash (x ∷ xs) [] whole tt) in
    let relative = is_abs-join_components x (xs ++ [] ∷ []) h.0.whole h.0.filled in
    let names = resolve_clean false (x ∷ xs) (inl h) in
    rw
      (
        ← join_components-append x xs [],
        relative,
        parts,
        resolve-append false [] (x ∷ xs) ([] ∷ []),
        resolve_empty_end (resolve false [] (x ∷ xs)),
        names,
      )
      refl

-- The parent of a path of names is the path without the last one.
dir-append :
    (z : Str) (zs : List Str) (x : Str)
    → All Proper (z ∷ zs)
    → NoSlash x
    → dir (join_components ((z ∷ zs) ++ x ∷ [])) ≡ join_components (z ∷ zs)
unfolding dir
dir-append z zs x h w =
    rw (join_components-append z zs x, dir_part-append (join_components (z ∷ zs)) x w)
      (clean-slash z zs h)

dir_name : (x : Str) → NoSlash x → dir x ≡ dot
unfolding dir
dir_name x w = rw (dir_part_name x w) (unfold clean components split resolve Str-discrete in refl)

pub All-reverse : (P : Str → Type 0) (xs : List Str) → All P xs → All P (reverse xs)
All-reverse P [] h = tt
All-reverse P (x ∷ xs) h =
    rw reverse-cons (All-append_end P (reverse xs) x (All-reverse P xs h.1) h.0)

parents-dot : (fuel : ℕ) → parents (suc fuel) dot ≡ some []
unfolding parents Str-discrete ℕ_discrete
parents-dot fuel = refl

reverse_filled : (y : Str) (rs : List Str) → reverse (y ∷ rs) ≢ []
reverse_filled y rs e =
    let e' : reverse rs ++ y ∷ [] ≡ [] = rw (← reverse-cons y rs) e in
    omega (arith, ap length e', length-append (reverse rs) (y ∷ []))

length-reverse : (xs : List Str) → length (reverse xs) ≡ length xs
length-reverse [] = refl
length-reverse (x ∷ xs) =
    rw reverse-cons (omega (arith, length-append (reverse xs) (x ∷ []), length-reverse xs))

parents_step :
    (fuel : ℕ) (p d : Str) (ds : List Str)
    → p ≢ dot
    → dir p ≡ d
    → parents fuel d ≡ some ds
    → parents (suc fuel) p ≡ some (p ∷ ds)
unfolding parents
parents_step fuel p d ds n e h =
    let h' : parents fuel (dir p) ≡ some ds = rw (← e) at h in ground (arith, h')

dir_of_names :
    (x y : Str) (rs : List Str)
    → All Proper (x ∷ y ∷ rs)
    → dir (join_components (reverse (x ∷ y ∷ rs))) ≡ join_components (reverse (y ∷ rs))
dir_of_names x y rs h = elim (List-cases (reverse (y ∷ rs))) [
  | inl e ↦ absurd (reverse_filled y rs e)
  | inr (z, zs, e) ↦
      let names : All Proper (z ∷ zs) = subst (All Proper) e (All-reverse Proper (y ∷ rs) h.1) in
      let whole : reverse (x ∷ y ∷ rs) ≡ (z ∷ zs) ++ x ∷ [] =
        rw (reverse-cons x (y ∷ rs), e) refl in
      rw (whole, e) (dir-append z zs x names h.0.whole)
]

names_not_dot :
    (x : Str) (rs : List Str) → All Proper (x ∷ rs) → join_components (reverse (x ∷ rs)) ≢ dot
names_not_dot x rs h = elim (List-cases (reverse (x ∷ rs))) [
  | inl e ↦ absurd (reverse_filled x rs e)
  | inr (z, zs, e) ↦
      let names : All Proper (z ∷ zs) = subst (All Proper) e (All-reverse Proper (x ∷ rs) h) in
      rw e (join_components-inside z zs names).0
]

-- The rounds end at `.`, one for each component, and visit the fronts of the path.
pub parents-front_paths :
    (fuel : ℕ) (x : Str) (rs : List Str)
    → All Proper (x ∷ rs)
    → 1 + length rs < fuel
    → parents fuel (join_components (reverse (x ∷ rs))) ≡ some (front_paths (x ∷ rs))
parents-front_paths zero x rs h l = absurd (omega arith)
parents-front_paths (suc zero) x rs h l = absurd (omega arith)
parents-front_paths (suc (suc fuel)) x [] h l =
    unfold join_components in
    parents_step (suc fuel) x dot [] (h.0.not_dot) (dir_name x h.0.whole) (parents-dot fuel)
parents-front_paths (suc (suc fuel)) x (y ∷ rs) h l =
    parents_step (suc fuel) _ _ _ (names_not_dot x (y ∷ rs) h) (dir_of_names x y rs h)
      (parents-front_paths (suc fuel) y rs h.1 (omega arith))

length-join_components :
    (x : Str) (xs : List Str)
    → All Proper (x ∷ xs)
    → length (x ∷ xs) ≤ length (join_components (x ∷ xs))
unfolding join_components
length-join_components [] xs h = absurd (h.0.filled refl)
length-join_components (c ∷ cs) [] h = omega arith
length-join_components (c ∷ cs) (y ∷ ys) h = omega (
  arith,
  length-join_components y ys h.1,
  length-append (c ∷ cs) (slash ∷ join_components (y ∷ ys)),
)

-- As many rounds as the path has bytes are enough.
abbrev pub all_parents : Str → Option (List Str)
all_parents p = parents (suc (length p)) p

pub all_parents-front_paths :
    (x : Str) (rs : List Str)
    → All Proper (x ∷ rs)
    → all_parents (join_components (reverse (x ∷ rs))) ≡ some (front_paths (x ∷ rs))
all_parents-front_paths x rs h = elim (List-cases (reverse (x ∷ rs))) [
  | inl e ↦ absurd (reverse_filled x rs e)
  | inr (z, zs, e) ↦
      let names : All Proper (z ∷ zs) = subst (All Proper) e (All-reverse Proper (x ∷ rs) h) in
      let long : length (z ∷ zs) ≡ 1 + length rs =
        omega (arith, ap length e, length-reverse (x ∷ rs)) in
      let bound : 1 + length rs ≤ length (join_components (reverse (x ∷ rs))) =
        rw e (omega (arith, length-join_components z zs names)) in
      parents-front_paths _ x rs h (omega arith)
]

-- The same for the directories above a path of names.
pub parents_of_dir :
    (x : Str) (rs : List Str)
    → All Proper (x ∷ rs)
    → all_parents (dir (join_components (reverse (x ∷ rs)))) ≡ some (front_paths rs)
parents_of_dir x [] h =
    let up : dir (join_components (reverse (x ∷ []))) ≡ dot =
      unfold join_components in dir_name x h.0.whole in
    rw up (parents-dot (length dot))
parents_of_dir x (y ∷ rs) h = rw (dir_of_names x y rs h) (all_parents-front_paths y rs h.1)
