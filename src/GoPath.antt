-- ===== src/GoPath.antt =====
-- Go's `path` and `path/filepath` on Unix, as far as the repository calls them. A path is split at its
-- slashes, and cleaned on a stack of components, the last one on top.
pub mod Components
pub mod Resolve
pub mod Clean
pub mod Rel
pub mod Parent
pub mod Glob
mod Examples
use agent_graph.Prelude.{
  ℕ, Str, bytes, List, [], ◌∷◌, ◌++◌, Option, none, some, Bool, true, false, ◌==◌, str_eq, nat_eq,
  if◌then◌else◌, map, ◌&&◌, ◌||◌, not, ltb, length, ◌≡◌, refl, Str-discrete, ℕ_discrete,
}
use mathlib.Core.List.{reverse}

abbrev pub slash : ℕ
slash = b'/'

abbrev pub dot : Str
dot = b'.' ∷ []

abbrev pub dot_dot : Str
dot_dot = b'.' ∷ b'.' ∷ []

-- Puts a byte in front of the first component.
abbrev pub push_byte : ℕ → List Str → List Str
push_byte c [] = (c ∷ []) ∷ []
push_byte c (x ∷ xs) = (c ∷ x) ∷ xs

-- `strings.Split` at slashes.
unfoldable pub split : Str → List Str
split [] = [] ∷ []
split (c ∷ cs) = let rest = split cs in if c == slash then [] ∷ rest else push_byte c rest

-- `strings.Join` with slashes.
unfoldable pub join_components : List Str → Str
join_components [] = []
join_components (x ∷ []) = x
join_components (x ∷ y ∷ ys) = x ++ slash ∷ join_components (y ∷ ys)

abbrev pub is_abs : Str → Bool
is_abs [] = false
is_abs (c ∷ cs) = c == slash

-- What `..` does to the stack: it takes a name off, and stays where none is left to take.
abbrev pub pop_component : Bool → List Str → List Str
pop_component rooted [] = if rooted then [] else dot_dot ∷ []
pop_component rooted (top ∷ rest) = if top == dot_dot then dot_dot ∷ top ∷ rest else rest

abbrev pub push_component : Bool → List Str → Str → List Str
push_component rooted stack x =
    if x == []
    then stack
    else if x == dot
    then stack
    else if x == dot_dot
    then pop_component rooted stack
    else x ∷ stack

unfoldable pub resolve : Bool → List Str → List Str → List Str
resolve rooted stack [] = stack
resolve rooted stack (x ∷ xs) = resolve rooted (push_component rooted stack x) xs

-- The components of the clean path, in order.
unfoldable pub components : Str → List Str
components p = reverse (resolve (is_abs p) [] (split p))

abbrev pub render : Bool → List Str → Str
render true xs = slash ∷ join_components xs
render false [] = dot
render false (x ∷ xs) = join_components (x ∷ xs)

-- `path.Clean` and `filepath.Clean`.
unfoldable pub clean : Str → Str
clean p = render (is_abs p) (components p)

-- `filepath.Join` of two elements.
unfoldable pub join : Str → Str → Str
join [] [] = []
join [] (c ∷ cs) = clean (c ∷ cs)
join (b ∷ bs) [] = clean (b ∷ bs)
join (b ∷ bs) (c ∷ cs) = clean ((b ∷ bs) ++ slash ∷ c ∷ cs)

-- The elements that `filepath.Rel` compares: those of a clean path behind its root.
abbrev pub elements : Str → List Str
elements [] = []
elements (c ∷ cs) = if c == slash then (if cs == [] then [] else split cs) else split (c ∷ cs)

unfoldable pub drop_common : List Str → List Str → List Str × List Str
drop_common [] ts = ([], ts)
drop_common (b ∷ bs) [] = (b ∷ bs, [])
drop_common (b ∷ bs) (t ∷ ts) =
    let rest = drop_common bs ts in if b == t then rest else (b ∷ bs, t ∷ ts)

abbrev pub climb : List Str → List Str → Option Str
climb [] ts = some (join_components ts)
climb (b ∷ bs) ts =
    if b == dot_dot then none else some (join_components (map (λ _. dot_dot) (b ∷ bs) ++ ts))

abbrev pub same_root : Str → Str → Bool
same_root b t = if is_abs b then is_abs t else not (is_abs t)

abbrev pub climb_common : List Str × List Str → Option Str
climb_common (bs, ts) = climb bs ts

abbrev pub base_elements : Str → List Str
base_elements b = if b == dot then [] else elements b

-- `filepath.Rel` of clean paths. A base of `.` counts as empty, and is relative either way.
abbrev pub rel_clean : Str → Str → Option Str
rel_clean b t =
    if t == b
    then some dot
    else if same_root b t
    then climb_common (drop_common (base_elements b) (elements t))
    else none

-- `filepath.Rel`; its error is `none`.
unfoldable pub rel : Str → Str → Option Str
rel base target = rel_clean (clean base) (clean target)

-- `strings.HasPrefix`.
unfoldable pub has_prefix : Str → Str → Bool
has_prefix s [] = true
has_prefix [] (p ∷ ps) = false
has_prefix (c ∷ cs) (p ∷ ps) = c == p && has_prefix cs ps
