-- ===== src/GoStrings.antt =====
-- Go's `strings` and `filepath.Ext`, as far as the repository calls them, on text of ASCII: a byte from 128 on
-- is no space and has no other case.
pub mod Trim
use agent_graph.Prelude.{
  ℕ, ◌+◌, Str, List, [], ◌∷◌, Bool, true, false, ◌==◌, str_eq, nat_eq, if◌then◌else◌, ◌&&◌, ◌||◌,
  not, leb, mem, map, is_empty,
}
use agent_graph.GoPath.{slash, has_prefix}

abbrev pub is_space : ℕ → Bool
is_space c = c == b' ' || (leb 9 c && leb c 13)

unfoldable pub trim_left : Str → Str
trim_left [] = []
trim_left (c ∷ cs) = let rest = trim_left cs in if is_space c then rest else c ∷ cs

unfoldable pub trim_right : Str → Str
trim_right [] = []
trim_right (c ∷ cs) =
    let rest = trim_right cs in if is_space c && is_empty rest then [] else c ∷ rest

-- `strings.TrimSpace`.
unfoldable pub trim_space : Str → Str
trim_space s = trim_right (trim_left s)

abbrev pub lower : ℕ → ℕ
lower c = if leb b'A' c && leb c b'Z' then c + 32 else c

-- `strings.ToLower`.
abbrev pub to_lower : Str → Str
to_lower s = map lower s

-- `filepath.Ext`: from the last dot of the last element on.
unfoldable pub ext : Str → Str
ext [] = []
ext (c ∷ cs) =
    let rest = ext cs in
    if not (is_empty rest) then rest else if c == b'.' && not (mem slash cs) then c ∷ cs else []

-- `strings.Contains`.
unfoldable pub contains : Str → Str → Bool
contains s [] = true
contains [] (p ∷ ps) = false
contains (c ∷ cs) (p ∷ ps) = has_prefix (c ∷ cs) (p ∷ ps) || contains cs (p ∷ ps)
