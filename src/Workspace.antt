-- ===== src/Workspace.antt =====
-- workspace/discovery.go: the projects of a workspace and the sources that are indexed. What a walk of the file
-- system reports is a list of visits, and the `go-gitignore` library compiles a pattern to a test of paths.
pub mod Patterns
pub mod GitIgnore
pub mod Ignore
pub mod Roots
pub mod Discover
mod Examples
use agent_graph.Prelude.{Str, List, Bool}

pub record DiscoverOptions : Type 0 where
  pub configured_roots : List Str

pub record Project : Type 0 where
  pub id : Str
  pub root : Str

pub record Source : Type 0 where
  pub path : Str
  pub project_id : Str

pub record Discovery : Type 0 where
  pub projects : List Project
  pub sources : List Source

pub record IgnoreRule : Type 0 where
  pub pattern : Str
  pub includes : Bool

-- `matches_path` is `matcher.MatchesPath`.
pub record GitIgnorePattern : Type 0 where
  pub matches_path : Str → Bool
  pub negated : Bool

pub record GitIgnoreRule : Type 0 where
  pub root : Str
  pub patterns : List GitIgnorePattern

pub record IgnoreRules : Type 0 where
  pub agraph : List IgnoreRule
  pub git_ignores : List GitIgnoreRule

-- A call of the function that walks the file system is given: a path and whether it is a directory, or a path and
-- the error of the context or of the walk.
pub data Visit : Type 0 where
  visited : Str → Bool → Visit
  stopped : Str → Str → Visit

-- Why discovery fails; the texts around the causes are left out.
pub data DiscoverError : Type 0 where
  no_working_directory not_relative outside_workspace : DiscoverError
  walk_failed read_failed emit_failed : Str → DiscoverError
