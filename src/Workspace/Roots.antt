-- ===== src/Workspace/Roots.antt =====
-- workspace/discovery.go: the roots of projects, and the files that are manifests or sources.
pub mod Unique
pub mod Specific
use agent_graph.Prelude.{
  ℕ, Str, bytes, List, [], ◌∷◌, ◌++◌, Bool, true, false, Option, none, some, ◌==◌, str_eq, nat_eq,
  if◌then◌else◌, not, ◌&&◌, ◌||◌, is_empty, mem, Result, ok, err, length, ltb, str_ltb,
}
use agent_graph.GoPath.{slash, dot, dot_dot, has_prefix, rel, join, clean, is_abs}
use agent_graph.GoPath.Parent.{dir}
use agent_graph.GoStrings.{ext, to_lower}
use agent_graph.GoSort.{sort_strings}
use agent_graph.Workspace.{DiscoverError, not_relative, outside_workspace}

unfoldable pub project_manifest : Str → Bool
project_manifest name =
    mem name
      (bytes "go.mod" ∷ bytes "package.json" ∷ bytes "tsconfig.json" ∷ bytes "jsconfig.json" ∷ [])

unfoldable pub supported_source : Str → Bool
supported_source path =
    mem (to_lower (ext path))
      (bytes ".go" ∷ bytes ".js" ∷ bytes ".jsx" ∷ bytes ".ts" ∷ bytes ".tsx" ∷ [])

-- Both of its branches give the directory.
unfoldable pub project_root : Str → Str
project_root manifest_path =
    let directory = dir manifest_path in if directory == dot then dot else directory

abbrev pub project_id : Str → Str
project_id root = bytes "project:" ++ root

abbrev relative_root : Str → Result DiscoverError Str
relative_root relative =
    if relative == dot_dot || has_prefix relative (dot_dot ++ slash ∷ [])
    then err outside_workspace
    else if relative == dot
    then ok dot
    else ok (clean relative)

unfoldable pub normalize_root : Str → Str → Result DiscoverError Str
normalize_root workspace_root root =
    let candidate = if is_abs root then root else join workspace_root root in
    elim (rel workspace_root candidate) [
      | none ↦ err not_relative
      | some relative ↦ relative_root relative
    ]

-- The loop over the values behind the first; `last` is the last one that was kept.
unfoldable pub unique_after : Str → List Str → List Str
unique_after last [] = []
unique_after last (value ∷ values) = elim (value == last) [
  | true ↦ unique_after last values
  | false ↦ value ∷ unique_after value values
]

abbrev drop_repeated : List Str → List Str
drop_repeated [] = []
drop_repeated (value ∷ values) = value ∷ unique_after value values

unfoldable pub unique_sorted : List Str → List Str
unfolding unique_after
unique_sorted values = drop_repeated (sort_strings values)

abbrev pub owns : Str → Str → Bool
owns root source_path =
    root == dot || source_path == root || has_prefix source_path (root ++ slash ∷ [])

-- The loop over the roots.
unfoldable pub longest_owner : Str → List Str → Str → Str
longest_owner source_path [] best = best
longest_owner source_path (root ∷ roots) best =
    longest_owner source_path roots
      (if owns root source_path && ltb (length best) (length root) then root else best)

-- An empty string is no root.
unfoldable pub most_specific_root : Str → List Str → Option Str
unfolding longest_owner
most_specific_root source_path roots =
    let best = longest_owner source_path roots [] in if is_empty best then none else some best
