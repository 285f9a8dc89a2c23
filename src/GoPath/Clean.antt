-- ===== src/GoPath/Clean.antt =====
-- Clean paths: their components, and that cleaning twice is cleaning once.
use agent_graph.Prelude.{
  Str, List, [], ◌∷◌, ◌≡◌, ◌≢◌, refl, arith, inl, inr, Bool, true, false, str_eq, Str-discrete,
  nat_eq, ℕ_discrete,
}
use agent_graph.GoPath.{slash, split, join_components, is_abs, resolve, components, render, clean}
use agent_graph.GoPath.Components.{
  NoSlash, split-NoSlash, split-join_components, split-append_slash,
}
use agent_graph.GoPath.Resolve.{
  IsClean, resolve-IsStack, IsStack-reverse, resolve-IsClean, IsClean-NoSlash,
}
use mathlib.Core.List.{reverse, reverse-reverse, append-nil}

pub components-IsClean : (p : Str) → IsClean (is_abs p) (components p)
unfolding components
components-IsClean p =
    IsStack-reverse (is_abs p) (resolve (is_abs p) [] (split p))
      (resolve-IsStack (is_abs p) [] (split p) (split-NoSlash p) tt)

pub resolve_clean :
    (rooted : Bool) (xs : List Str) → IsClean rooted xs → reverse (resolve rooted [] xs) ≡ xs
resolve_clean rooted xs h = rw (resolve-IsClean rooted [] xs tt h, append-nil) (reverse-reverse xs)

-- The first component of a relative clean path does not begin with a slash.
pub is_abs-join_components :
    (x : Str) (xs : List Str) → NoSlash x → x ≢ [] → is_abs (join_components (x ∷ xs)) ≡ false
unfolding join_components
is_abs-join_components [] xs w f = absurd (f refl)
is_abs-join_components (c ∷ cs) [] w f = ground (arith, w.0)
is_abs-join_components (c ∷ cs) (y ∷ ys) w f = ground (arith, w.0)

filled_first : (x : Str) (xs : List Str) → IsClean false (x ∷ xs) → NoSlash x × (x ≢ [])
filled_first x xs (inl h) = (h.0.whole, h.0.filled)
filled_first x xs (inr h) = ground (arith, h.0)

pub components_rooted : (s : Str) → components (slash ∷ s) ≡ reverse (resolve true [] (split s))
unfolding components resolve
components_rooted s = ground (arith, split-append_slash [] s tt)

pub is_abs-render :
    (rooted : Bool) (xs : List Str) → IsClean rooted xs → is_abs (render rooted xs) ≡ rooted
is_abs-render true xs h = ground arith
is_abs-render false [] h = ground arith
is_abs-render false (x ∷ xs) h =
    let (whole, filled) = filled_first x xs h in is_abs-join_components x xs whole filled

pub components-render :
    (rooted : Bool) (xs : List Str) → IsClean rooted xs → components (render rooted xs) ≡ xs
unfolding components
components-render true [] h =
    rw components_rooted (unfold split join_components resolve Str-discrete in refl)
components-render true (x ∷ xs) h =
    rw (components_rooted, split-join_components x xs (IsClean-NoSlash true (x ∷ xs) h))
      (resolve_clean true (x ∷ xs) h)
components-render false [] h = unfold split resolve Str-discrete ℕ_discrete in refl
components-render false (x ∷ xs) h =
    rw
      (
        is_abs-render false (x ∷ xs) h,
        split-join_components x xs (IsClean-NoSlash false (x ∷ xs) h),
      )
      (resolve_clean false (x ∷ xs) h)

-- Cleaning keeps the root and the components of a path.
pub clean_parts : (p : Str) → (is_abs (clean p) ≡ is_abs p) × (components (clean p) ≡ components p)
unfolding clean
clean_parts p =
    let h = components-IsClean p in
    (is_abs-render (is_abs p) (components p) h, components-render (is_abs p) (components p) h)

-- `Clean` is idempotent.
pub clean-clean : (p : Str) → clean (clean p) ≡ clean p
unfolding clean
clean-clean p = let (root, parts) = clean_parts p in rw (root, parts)
