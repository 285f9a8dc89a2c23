-- ===== src/Workspace/Examples.antt =====
-- A small workspace with two projects, and the theorems at it.
use agent_graph.Prelude.{
  ℕ, Str, bytes, List, [], ◌∷◌, Bool, true, false, Option, none, some, ◌≡◌, refl, arith, Result, ok,
  Str-discrete, ℕ_discrete, str_ltb, mem, str_eq, nat_eq, In, All, ◌↔◌, ◌⊎◌, ◌≤◌, length, ◌==◌, map,
  inl, inr, ap, ◌≢◌, if◌then◌else◌,
}
use mathlib.Core.Bool.{xor}
use mathlib.Core.List.{reverse}
use agent_graph.GoPath
use agent_graph.GoPath.{join_components}
use agent_graph.GoPath.Resolve.{Proper}
use agent_graph.GoPath.Components.{NoSlash}
use agent_graph.GoPath.Parent
use agent_graph.GoPath.Glob
use agent_graph.GoStrings
use agent_graph.GoSort
use agent_graph.Workspace.{
  DiscoverOptions, Source, Discovery, IgnoreRules, GitIgnoreRule, Visit, visited,
}
use agent_graph.Workspace.Patterns
use agent_graph.Workspace.Patterns.{ignore_pattern_matches, internal_directory}
use agent_graph.Workspace.GitIgnore
use agent_graph.Workspace.GitIgnore.{git_ignored, git_ignored_path}
use agent_graph.Workspace.GitIgnore.Parents.{git_ignored_iff}
use agent_graph.Workspace.Ignore
use agent_graph.Workspace.Ignore.{source_excluded}
use agent_graph.Workspace.Ignore.Last.{source_excluded_iff, ExcludedByRules}
use agent_graph.Workspace.Roots
use agent_graph.Workspace.Roots.{unique_sorted, most_specific_root, owns}
use agent_graph.Workspace.Roots.Unique.{Increasing, unique_sorted-Increasing}
use agent_graph.Workspace.Roots.Specific.{most_specific_root_lem}
use agent_graph.Workspace.Discover
use agent_graph.Workspace.Discover.{FileSystem, discover, project_of}
use agent_graph.Workspace.Discover.Sources.{IsPrepared, IsListed, discover_lem}

run : Unit {0}
unfolding discover Discover.discover_stream Discover.prepare Discover.emit_sources
    Discover.source_at Discover.manifest_roots Discover.normalize_roots Roots.normalize_root
    unique_sorted Roots.unique_after most_specific_root Roots.longest_owner Roots.project_root
    Roots.supported_source Roots.project_manifest Ignore.load_ignore_rules
    Ignore.load_git_ignore_rules Ignore.collect_git_ignores Ignore.parse_rules source_excluded
    git_ignored GitIgnore.directory_ignored git_ignored_path GitIgnore.matches_git_ignore_pattern
    GitIgnore.load_git_ignore_patterns GitIgnore.lines ignore_pattern_matches
    Patterns.directory_pattern_matches Patterns.directory_matches Patterns.without_last
    Patterns.ends_in_slash internal_directory Parent.parents Parent.base Parent.strip_slashes
    Parent.file_part Parent.dir Parent.dir_part Glob.path_match Glob.parse_chunks Glob.parse_piece
    Glob.parse_class Glob.match_chunks Glob.place_chunk Glob.match_chunk GoStrings.ext
    GoStrings.trim_space GoStrings.trim_left GoStrings.trim_right GoSort.sort_strings
    GoSort.sort_slice GoSort.insert GoPath.rel GoPath.drop_common GoPath.join GoPath.clean
    GoPath.components GoPath.resolve GoPath.split GoPath.join_components GoPath.has_prefix
    Str-discrete ℕ_discrete str_ltb xor
run = tt

star_class : Glob.path_match (bytes "a*[b-d]?.go") (bytes "axxcy.go") ≡ true
unfolding run
star_class = refl

star_no_slash : Glob.path_match (bytes "*.go") (bytes "a/b.go") ≡ false
unfolding run
star_no_slash = refl

bad_pattern : Glob.path_match (bytes "[a") (bytes "a") ≡ false
unfolding run
bad_pattern = refl

anchored : ignore_pattern_matches (bytes "gen/a.go") (bytes "/gen/") ≡ true
unfolding run
anchored = refl

nested_directory : ignore_pattern_matches (bytes "x/gen/a.go") (bytes "gen/") ≡ true
unfolding run
nested_directory = refl

directory_itself : ignore_pattern_matches (bytes "gen") (bytes "gen/") ≡ false
unfolding run
directory_itself = refl

parent_of_path : ignore_pattern_matches (bytes "x/gen/a.go") (bytes "x/g*n") ≡ true
unfolding run
parent_of_path = refl

-- The root of one letter is no longer than `.`, so the source goes to the project of the workspace.
short_root :
    most_specific_root (bytes "a/x.go") (unique_sorted (bytes "a" ∷ bytes "." ∷ []))
    ≡ some (bytes ".")
unfolding run
short_root = refl

-- A Git ignore library that knows whole names only.
abbrev whole_name : List Str → Str → Bool
whole_name patterns path = mem path patterns

abbrev read_file : Str → Result Str (Option Str)
read_file path =
    if path == bytes "/w/.wayfinderignore"
    then ok (some (bytes "# rules\ngen/\n!gen/keep.go\n"))
    else if path == bytes "/w/app/.gitignore"
    then ok (some (bytes "old.go\n"))
    else ok none

abbrev visits : List Visit
visits =
    visited (bytes "/w") true
    ∷ visited (bytes "/w/go.mod") false
    ∷ visited (bytes "/w/main.go") false
    ∷ visited (bytes "/w/app/.gitignore") false
    ∷ visited (bytes "/w/app/package.json") false
    ∷ visited (bytes "/w/app/a.ts") false
    ∷ visited (bytes "/w/app/old.go") false
    ∷ visited (bytes "/w/app/notes.md") false
    ∷ visited (bytes "/w/gen/b.go") false
    ∷ visited (bytes "/w/node_modules/c.js") false
    ∷ []

abbrev files : FileSystem
files = record {
  working_directory = none;
  read_file = read_file;
  ignore_visits = visits;
  project_visits = visits;
  source_visits = visits;
}

abbrev options : DiscoverOptions
options = record { configured_roots = bytes "app/../app" ∷ [] }

abbrev found : Discovery
found = record {
  projects = project_of (bytes ".") ∷ project_of (bytes "app") ∷ [];
  sources =
      record { path = bytes "main.go"; project_id = bytes "project:." }
      ∷ record { path = bytes "app/a.ts"; project_id = bytes "project:app" }
      ∷ [];
}

discovers : discover whole_name files (bytes "/w") options ≡ ok found
unfolding run
discovers = refl

unique_sorted-Increasing_example :
    Increasing (unique_sorted (bytes "b" ∷ bytes "a" ∷ bytes "b" ∷ []))
    × ((a : Str)
        → In a (unique_sorted (bytes "b" ∷ bytes "a" ∷ bytes "b" ∷ []))
          ↔ In a (bytes "b" ∷ bytes "a" ∷ bytes "b" ∷ []))
unique_sorted-Increasing_example = unique_sorted-Increasing (bytes "b" ∷ bytes "a" ∷ bytes "b" ∷ [])

abbrev roots : List Str
roots = bytes "." ∷ bytes "app" ∷ bytes "app/web" ∷ []

filled : ¬ In [] roots
filled i = elim i [
  | inl e ↦ cc e
  | inr (inl e) ↦ cc e
  | inr (inr (inl e)) ↦ cc e
  | inr (inr (inr j)) ↦ j
]

most_specific_root_lem_example :
    ((r : Str)
      → most_specific_root (bytes "app/web/x.ts") roots ≡ some r
      → In r roots
        × (owns r (bytes "app/web/x.ts") ≡ true)
        × ((other : Str)
            → In other roots
            → owns other (bytes "app/web/x.ts") ≡ true
            → length other ≤ length r))
    × (most_specific_root (bytes "app/web/x.ts") roots ≡ none
        → (r : Str) → In r roots
        → owns r (bytes "app/web/x.ts") ≡ false)
most_specific_root_lem_example = most_specific_root_lem (bytes "app/web/x.ts") roots filled

abbrev git_rules : List GitIgnoreRule
git_rules =
    record {
      root = bytes "app";
      patterns = record { matches_path = whole_name (bytes "out/" ∷ []); negated = false } ∷ [];
    }
    ∷ []

abbrev rules : IgnoreRules
rules = record {
  agraph =
      record { pattern = bytes "*.go"; includes = false }
      ∷ record { pattern = bytes "keep.go"; includes = true }
      ∷ [];
  git_ignores = git_rules;
}

below_ignored : git_ignored (bytes "app/out/a.js") git_rules ≡ some true
unfolding run
below_ignored = refl

-- The components of `app/out/a.js`, the last one first.
abbrev names : List Str
names = bytes "a.js" ∷ bytes "out" ∷ bytes "app" ∷ []

names-Proper_first : (x : Str) → x ≢ [] → x ≢ bytes "." → x ≢ bytes ".." → NoSlash x → Proper x
names-Proper_first x a b c d = record { filled = a; not_dot = b; not_dot_dot = c; whole = d }

long_Proper : (a b c : ℕ) (x : Str) → NoSlash (a ∷ b ∷ c ∷ x) → Proper (a ∷ b ∷ c ∷ x)
long_Proper a b c x h =
    names-Proper_first (a ∷ b ∷ c ∷ x) (λ e. omega (arith, ap length e))
      (λ e. omega (arith, ap length e)) (λ e. omega (arith, ap length e)) h

names-Proper : All Proper names
names-Proper = (
  long_Proper _ _ _ _
      (λ e. omega arith, (λ e. omega arith, (λ e. omega arith, (λ e. omega arith, tt)))),
  (
    long_Proper _ _ _ _ (λ e. omega arith, (λ e. omega arith, (λ e. omega arith, tt))),
    (long_Proper _ _ _ _ (λ e. omega arith, (λ e. omega arith, (λ e. omega arith, tt))), tt),
  ),
)

git_ignored_iff_example :
    (ignored : Bool) × (git_ignored (join_components (reverse names)) git_rules ≡ some ignored)
    × ((ignored ≡ true) ↔ (
        ((d : Str) × In d (Parent.front_paths (bytes "out" ∷ bytes "app" ∷ []))
          × (git_ignored_path d true git_rules ≡ true))
        ⊎ (git_ignored_path (join_components (reverse names)) false git_rules ≡ true)))
git_ignored_iff_example =
    git_ignored_iff (bytes "a.js") (bytes "out" ∷ bytes "app" ∷ []) git_rules names-Proper

source_excluded_iff_example : (source_excluded (bytes "x/keep.go") rules ≡ true) ↔ (
    (internal_directory (bytes "x/keep.go") ≡ true)
    ⊎ ((git_ignored (bytes "x/keep.go") rules.git_ignores ≡ some true)
        ⊎ ExcludedByRules (bytes "x/keep.go") rules.agraph))
source_excluded_iff_example = source_excluded_iff (bytes "x/keep.go") rules

discover_lem_example :
    (workspace_root : Str) × (rules : IgnoreRules) × (roots : List Str) × IsPrepared whole_name
      files
      (bytes "/w")
      options
      workspace_root
      rules
      roots
    × (found.projects ≡ map project_of roots)
    × ((s : Source)
        → In s found.sources ↔ (
            (path : Str) × In (visited path false) files.source_visits
            × IsListed workspace_root rules roots path s))
discover_lem_example = discover_lem whole_name files (bytes "/w") options found discovers
