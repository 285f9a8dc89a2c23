-- ===== src/Workspace/Patterns.antt =====
-- workspace/discovery.go: ignorePatternMatches, directoryPatternMatches and internalDirectory.
use agent_graph.Prelude.{
  Str, bytes, List, [], ◌∷◌, ◌++◌, Bool, false, none, some, ◌==◌, str_eq, nat_eq, if◌then◌else◌,
  mem, not, ◌&&◌, ◌||◌, is_empty,
}
use agent_graph.GoPath.{slash, split, join_components, is_abs}
use agent_graph.GoPath.Parent.{parents, all_parents, base}
use agent_graph.GoPath.Glob.{path_match}

abbrev pub internal_names : List Str
internal_names = bytes ".agent-wayfinder" ∷ bytes ".git" ∷ bytes "node_modules" ∷ []

abbrev any_mem : List Str → List Str → Bool
any_mem names [] = false
any_mem names (x ∷ xs) = mem x names || any_mem names xs

unfoldable pub internal_directory : Str → Bool
internal_directory source_path = any_mem internal_names (split source_path)

-- `strings.TrimPrefix` and `strings.TrimSuffix` of a slash.
abbrev trim_slash : Str → Str
trim_slash [] = []
trim_slash (c ∷ cs) = if c == slash then cs else c ∷ cs

unfoldable pub ends_in_slash : Str → Bool
ends_in_slash [] = false
ends_in_slash (c ∷ []) = c == slash
ends_in_slash (c ∷ d ∷ cs) = ends_in_slash (d ∷ cs)

unfoldable pub without_last : Str → Str
without_last [] = []
without_last (c ∷ []) = []
without_last (c ∷ d ∷ cs) = c ∷ without_last (d ∷ cs)

-- The loop over `components[:len(components)-1]`; `front` holds the components before.
unfoldable pub directory_matches : Bool → Str → List Str → List Str → Bool
directory_matches anchored pattern front [] = false
directory_matches anchored pattern front (x ∷ []) = false
directory_matches anchored pattern front (x ∷ y ∷ ys) =
    let candidate = join_components (front ++ x ∷ []) in
    let later = directory_matches anchored pattern (front ++ x ∷ []) (y ∷ ys) in
    if anchored && not (candidate == pattern)
    then later
    else if not anchored && not (mem slash pattern)
    then path_match pattern x || later
    else path_match pattern candidate || later

unfoldable pub directory_pattern_matches : Str → Str → Bool → Bool
unfolding directory_matches
directory_pattern_matches source_path pattern anchored =
    directory_matches anchored pattern [] (split source_path)

abbrev any_path_match : Str → List Str → Bool
any_path_match pattern [] = false
any_path_match pattern (x ∷ xs) = path_match pattern x || any_path_match pattern xs

-- The loop from the path to its parents. A relative path has them all; see `all_parents-front_paths`.
abbrev parent_matches : Str → Str → Bool
parent_matches source_path pattern = elim (all_parents source_path) [
  | none ↦ false
  | some candidates ↦ any_path_match pattern candidates
]

abbrev plain_pattern_matches : Str → Str → Bool → Bool
plain_pattern_matches source_path pattern anchored =
    if not (mem slash pattern)
    then path_match pattern (base source_path)
    else if anchored
    then path_match pattern source_path
    else parent_matches source_path pattern

unfoldable pub ignore_pattern_matches : Str → Str → Bool
unfolding directory_pattern_matches ends_in_slash without_last parents
ignore_pattern_matches source_path pattern =
    let anchored = is_abs pattern in
    let rest = trim_slash pattern in
    let directory = ends_in_slash rest in
    let name = if directory then without_last rest else rest in
    if is_empty name
    then false
    else if directory
    then directory_pattern_matches source_path name anchored
    else plain_pattern_matches source_path name anchored
