-- ===== src/Workspace/Ignore.antt =====
-- workspace/discovery.go: loadIgnoreRules, loadGitIgnoreRules and sourceExcluded.
pub mod Last
use agent_graph.Prelude.{
  ℕ, Str, bytes, List, [], ◌∷◌, ◌++◌, Bool, true, false, Option, none, some, ◌==◌, str_eq, nat_eq,
  if◌then◌else◌, not, ◌&&◌, ◌||◌, is_empty, drop, Result, ok, err, ◌>>=◌, map, str_ltb,
}
use agent_graph.GoPath.{slash, dot, rel, join, has_prefix}
use agent_graph.GoPath.Parent.{dir, base}
use agent_graph.GoStrings.{trim_space}
use agent_graph.GoSort.{sort_slice}
use agent_graph.Workspace.{
  GitIgnorePattern, GitIgnoreRule, IgnoreRule, IgnoreRules, Visit, visited, stopped, DiscoverError,
  not_relative, walk_failed, read_failed,
}
use agent_graph.Workspace.GitIgnore.{
  is_comment, is_negated, lines, load_git_ignore_patterns, git_ignored,
}
use agent_graph.Workspace.Patterns.{internal_directory, ignore_pattern_matches}

-- One line of `.wayfinderignore`.
abbrev parse_rule : Str → Option IgnoreRule
parse_rule line =
    let pattern = trim_space line in
    let includes = is_negated pattern in
    let name = if includes then drop 1 pattern else pattern in
    if is_comment pattern
    then none
    else if is_empty name
    then none
    else some (record { pattern = name; includes = includes })

unfoldable pub parse_rules : List Str → List IgnoreRule
parse_rules [] = []
parse_rules (line ∷ rest) =
    let rules = parse_rules rest in
    elim (parse_rule line) [ none ↦ rules | some rule ↦ rule ∷ rules ]

-- Each rule that matches decides anew.
abbrev pub apply_ignore_rules : List IgnoreRule → Str → Bool → Bool
apply_ignore_rules [] source_path excluded = excluded
apply_ignore_rules (rule ∷ rules) source_path excluded =
    apply_ignore_rules rules source_path
      (if ignore_pattern_matches source_path rule.pattern then not rule.includes else excluded)

unfoldable pub source_excluded : Str → IgnoreRules → Bool
source_excluded source_path rules =
    if internal_directory source_path
    then true
    else elim (git_ignored source_path rules.git_ignores) [
      | some true ↦ true
      | _ ↦ apply_ignore_rules rules.agraph source_path false
    ]

abbrev git_ignore_name : Str
git_ignore_name = bytes ".gitignore"

-- What reading a file gives: nothing where it does not exist, or the error.
abbrev pub ReadFile : Type 0
ReadFile = Str → Result Str (Option Str)

module _ (compile_ignore_lines : List Str → Str → Bool) (read_file : ReadFile)
    (workspace_root : Str) where
  -- A `.gitignore` that is gone when it is read is an error.
  abbrev read_git_ignore : Str → Str → Result DiscoverError GitIgnoreRule
  read_git_ignore path relative_path = elim (read_file path) [
    | err e ↦ err (read_failed e)
    | ok none ↦ err (read_failed path)
    | ok (some contents) ↦ ok (record {
      root = dir relative_path;
      patterns = load_git_ignore_patterns compile_ignore_lines contents;
    })
  ]

  abbrev git_ignore_at : Str → Str → Result DiscoverError (List GitIgnoreRule)
  git_ignore_at path relative_path =
      if base path == git_ignore_name
      then (read_git_ignore path relative_path >>= λ rule. ok (rule ∷ []))
      else ok []

  -- `filepath.SkipDir` of an internal directory: the walk goes on behind what is below it.
  abbrev skips : Str → Bool → Bool
  skips relative_path directory =
      directory && not (relative_path == dot) && internal_directory relative_path

  abbrev is_below : Option Str → Str → Bool
  is_below none path = false
  is_below (some skipped) path = has_prefix path (skipped ++ slash ∷ [])

  -- The walk reports what is in a directory behind the directory.
  unfoldable pub collect_git_ignores :
      List Visit → Option Str → Result DiscoverError (List GitIgnoreRule)
  collect_git_ignores [] skipped = ok []
  collect_git_ignores (stopped path e ∷ visits) skipped =
      let rest = collect_git_ignores visits skipped in
      if is_below skipped path then rest else err (walk_failed e)
  collect_git_ignores (visited path directory ∷ visits) skipped = elim (is_below skipped path) [
    | true ↦ collect_git_ignores visits skipped
    | false ↦ elim (rel workspace_root path) [
      | none ↦ err not_relative
      | some relative_path ↦ elim (skips relative_path directory) [
        | true ↦ collect_git_ignores visits (some path)
        | false ↦ (if directory then ok [] else git_ignore_at path relative_path) >>= λ found.
            collect_git_ignores visits skipped >>= λ rules. ok (found ++ rules)
      ]
    ]
  ]

  abbrev by_root : GitIgnoreRule → GitIgnoreRule → Bool
  by_root left right = str_ltb left.root right.root

  unfoldable pub load_git_ignore_rules : List Visit → Result DiscoverError (List GitIgnoreRule)
  unfolding collect_git_ignores
  load_git_ignore_rules visits =
      collect_git_ignores visits none >>= λ rules. ok (sort_slice by_root rules)

  abbrev read_ignore_rules : Result Str (Option Str) → Result DiscoverError (List IgnoreRule)
  read_ignore_rules (err e) = err (read_failed e)
  read_ignore_rules (ok none) = ok []
  read_ignore_rules (ok (some contents)) = ok (parse_rules (lines contents))

  unfoldable pub load_ignore_rules : List Visit → Result DiscoverError IgnoreRules
  load_ignore_rules visits = load_git_ignore_rules visits >>= λ git_ignores.
      read_ignore_rules (read_file (join workspace_root (bytes ".wayfinderignore"))) >>= λ agraph.
      ok (record { agraph = agraph; git_ignores = git_ignores })
