-- ===== src/Workspace/GitIgnore.antt =====
-- workspace/discovery.go: loadGitIgnorePatterns, gitIgnored, gitIgnoredPath and matchesGitIgnorePattern.
pub mod Parents
use agent_graph.Prelude.{
  ℕ, zero, suc, Str, bytes, List, [], ◌∷◌, ◌++◌, Bool, true, false, Option, none, some, ◌==◌,
  str_eq, nat_eq, if◌then◌else◌, not, ◌&&◌, ◌||◌, is_empty, drop, length, Result, ok, err,
}
use agent_graph.GoPath.{slash, dot, has_prefix}
use agent_graph.GoPath.Parent.{dir}
use agent_graph.GoStrings.{trim_space}
use agent_graph.Workspace.{GitIgnorePattern, GitIgnoreRule}

-- `strings.Split(text, "\n")`.
abbrev newline : ℕ
newline = 10

abbrev push_char : ℕ → List Str → List Str
push_char c [] = (c ∷ []) ∷ []
push_char c (x ∷ xs) = (c ∷ x) ∷ xs

unfoldable pub lines : Str → List Str
lines [] = [] ∷ []
lines (c ∷ cs) = let rest = lines cs in if c == newline then [] ∷ rest else push_char c rest

-- A line that is no pattern: blank, or a comment.
abbrev pub is_comment : Str → Bool
is_comment pattern = is_empty pattern || has_prefix pattern (bytes "#")

abbrev pub is_negated : Str → Bool
is_negated pattern = has_prefix pattern (bytes "!")

module _ (compile_ignore_lines : List Str → Str → Bool) where
  abbrev compile_pattern : Str → GitIgnorePattern
  compile_pattern pattern = record {
    matches_path =
        compile_ignore_lines
          (if is_negated pattern then bytes "*" ∷ pattern ∷ [] else pattern ∷ []);
    negated = is_negated pattern;
  }

  -- The body of the loop, and the loop.
  abbrev compile_lines : List Str → List GitIgnorePattern
  compile_lines [] = []
  compile_lines (line ∷ rest) =
      let pattern = trim_space line in
      let patterns = compile_lines rest in
      if is_comment pattern then patterns else compile_pattern pattern ∷ patterns

  unfoldable pub load_git_ignore_patterns : Str → List GitIgnorePattern
  unfolding lines
  load_git_ignore_patterns contents = compile_lines (lines contents)

unfoldable pub matches_git_ignore_pattern : GitIgnorePattern → Str → Bool → Bool
matches_git_ignore_pattern pattern source_path directory =
    let matched =
      pattern.matches_path (if directory then source_path ++ slash ∷ [] else source_path) in
    if pattern.negated then not matched else matched

-- The inner loop: each pattern that matches decides anew.
abbrev apply_patterns : List GitIgnorePattern → Str → Bool → Bool → Bool
apply_patterns [] path directory excluded = excluded
apply_patterns (pattern ∷ patterns) path directory excluded =
    apply_patterns patterns path directory
      (if matches_git_ignore_pattern pattern path directory then not pattern.negated else excluded)

-- The path below the root of a rule; `none` elsewhere.
abbrev below_root : Str → Str → Option Str
below_root root source_path =
    if root == dot
    then some source_path
    else if has_prefix source_path (root ++ slash ∷ [])
    then some (drop (length (root ++ slash ∷ [])) source_path)
    else none

abbrev apply_rule : GitIgnoreRule → Str → Bool → Bool → Bool
apply_rule rule source_path directory excluded = elim (below_root rule.root source_path) [
  | none ↦ excluded
  | some relative_path ↦ apply_patterns rule.patterns relative_path directory excluded
]

abbrev apply_rules : List GitIgnoreRule → Str → Bool → Bool → Bool
apply_rules [] source_path directory excluded = excluded
apply_rules (rule ∷ rules) source_path directory excluded =
    apply_rules rules source_path directory (apply_rule rule source_path directory excluded)

unfoldable pub git_ignored_path : Str → Bool → List GitIgnoreRule → Bool
unfolding matches_git_ignore_pattern
git_ignored_path source_path directory rules = apply_rules rules source_path directory false

-- The loop over the directories above the path; `none` if the rounds are not enough.
unfoldable pub directory_ignored : ℕ → Str → List GitIgnoreRule → Option Bool
unfolding git_ignored_path
directory_ignored zero directory rules = none
directory_ignored (suc fuel) directory rules =
    let rest = directory_ignored fuel (dir directory) rules in
    if directory == dot
    then some false
    else if git_ignored_path directory true rules
    then some true
    else rest

-- One round for each byte of the directory, and one more.
unfoldable pub git_ignored : Str → List GitIgnoreRule → Option Bool
unfolding directory_ignored
git_ignored source_path rules =
    let directory = dir source_path in
    elim (directory_ignored (suc (length directory)) directory rules) [
      | none ↦ none
      | some true ↦ some true
      | some false ↦ some (git_ignored_path source_path false rules)
    ]
