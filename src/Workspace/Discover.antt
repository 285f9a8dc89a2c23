-- ===== src/Workspace/Discover.antt =====
-- workspace/discovery.go: DiscoverStream and Discover. The function that takes the sources keeps a state.
pub mod Sources
use agent_graph.Prelude.{
  ℕ, zero, suc, Str, bytes, List, [], ◌∷◌, ◌++◌, Bool, true, false, Option, none, some, ◌==◌,
  str_eq, if◌then◌else◌, not, ◌&&◌, ◌||◌, Result, ok, err, ◌>>=◌, map,
}
use agent_graph.GoPath.{rel, join, clean, is_abs}
use agent_graph.GoPath.Parent.{base}
use agent_graph.Workspace.{
  DiscoverOptions, Project, Source, Discovery, IgnoreRules, Visit, visited, stopped, DiscoverError,
  no_working_directory, not_relative, walk_failed, emit_failed,
}
use agent_graph.Workspace.Ignore.{ReadFile, load_ignore_rules, source_excluded}
use agent_graph.Workspace.Roots.{
  project_manifest, supported_source, project_root, project_id, normalize_root, unique_sorted,
  most_specific_root,
}

-- `filepath.Abs`; there may be no working directory.
abbrev absolute : Option Str → Str → Result DiscoverError Str
absolute working_directory root =
    if is_abs root
    then ok (clean root)
    else elim working_directory [ none ↦ err no_working_directory | some d ↦ ok (join d root) ]

unfoldable pub normalize_roots : Str → List Str → Result DiscoverError (List Str)
normalize_roots workspace_root [] = ok []
normalize_roots workspace_root (root ∷ roots) = normalize_root workspace_root root >>= λ normalized.
    normalize_roots workspace_root roots >>= λ rest. ok (normalized ∷ rest)

module _ (workspace_root : Str) (rules : IgnoreRules) where
  -- The first walk: the roots that manifests name.
  abbrev roots_at : Str → Bool → Result DiscoverError (List Str)
  roots_at path directory = if directory then ok [] else elim (rel workspace_root path) [
    | none ↦ err not_relative
    | some relative_path ↦
        if source_excluded relative_path rules
        then ok []
        else if project_manifest (base path)
        then ok (project_root relative_path ∷ [])
        else ok []
  ]

  unfoldable pub manifest_roots : List Visit → Result DiscoverError (List Str)
  manifest_roots [] = ok []
  manifest_roots (stopped path e ∷ visits) = err (walk_failed e)
  manifest_roots (visited path directory ∷ visits) =
      roots_at path directory >>= λ found. manifest_roots visits >>= λ rest. ok (found ++ rest)

  -- The second walk: what a visit gives to the function that takes the sources.
  abbrev source_in : List Str → Str → Option Source
  source_in roots relative_path =
      if source_excluded relative_path rules || not (supported_source relative_path)
      then none
      else elim (most_specific_root relative_path roots) [
        | none ↦ none
        | some owner ↦ some (record { path = relative_path; project_id = project_id owner })
      ]

  unfoldable pub source_at : List Str → Visit → Result DiscoverError (Option Source)
  source_at roots (stopped path e) = err (walk_failed e)
  source_at roots (visited path directory) =
      if directory then ok none else elim (rel workspace_root path) [
        | none ↦ err not_relative
        | some relative_path ↦ ok (source_in roots relative_path)
      ]

-- The state after the sources that were emitted, how many, and why the walk ended early.
pub record Emitted (S : Type 0) : Type 0 where
  pub state : S
  pub count : ℕ
  pub failure : Option DiscoverError

module _ {S : Type 0} (emit : Source → S → S × Option Str) where
  unfoldable pub emit_sources : Str → IgnoreRules → List Str → List Visit → S → ℕ → Emitted S
  emit_sources root rules roots [] state count = record {
    state = state;
    count = count;
    failure = none;
  }
  emit_sources root rules roots (visit ∷ visits) state count =
      elim (source_at root rules roots visit) [
        | err e ↦ record { state = state; count = count; failure = some e }
        | ok none ↦ emit_sources root rules roots visits state count
        | ok (some source) ↦
            let (next, refused) = emit source state in
            elim refused [
              | none ↦ emit_sources root rules roots visits next (suc count)
              | some e ↦ record { state = next; count = count; failure = some (emit_failed e) }
            ]
      ]

-- The file system as the three walks find it.
pub record FileSystem : Type 0 where
  pub working_directory : Option Str
  pub read_file : ReadFile
  pub ignore_visits : List Visit
  pub project_visits : List Visit
  pub source_visits : List Visit

pub record Streamed (S : Type 0) : Type 0 where
  pub projects : List Project
  pub emitted : Emitted S

-- What `Discover` passes to `DiscoverStream`.
abbrev pub append_source : Source → List Source → List Source × Option Str
append_source source sources = (sources ++ source ∷ [], none)

abbrev pub project_of : Str → Project
project_of root = record { id = project_id root; root = root }

module _ (compile_ignore_lines : List Str → Str → Bool) (files : FileSystem) where
  -- The root, the rules and the project roots that the second walk works with.
  unfoldable pub prepare :
      Str → DiscoverOptions → Result DiscoverError (Str × (IgnoreRules × List Str))
  prepare root options = absolute files.working_directory root >>= λ workspace_root.
      load_ignore_rules compile_ignore_lines files.read_file workspace_root files.ignore_visits
      >>= λ rules. normalize_roots workspace_root options.configured_roots >>= λ configured.
          manifest_roots workspace_root rules files.project_visits >>= λ found.
          ok (workspace_root, (rules, unique_sorted (configured ++ found)))

  abbrev nothing : {S : Type 0} → S → DiscoverError → Streamed S
  nothing state e = record {
    projects = [];
    emitted = record { state = state; count = 0; failure = some e };
  }

  unfoldable pub discover_stream :
      {S : Type 0} → Str → DiscoverOptions → (Source → S → S × Option Str) → S → Streamed S
  unfolding emit_sources
  discover_stream root options emit state = elim (prepare root options) [
    | err e ↦ nothing state e
    | ok (workspace_root, (rules, roots)) ↦
        let emitted = emit_sources emit workspace_root rules roots files.source_visits state 0 in
        record {
          projects = elim emitted.failure [ none ↦ map project_of roots | some e ↦ [] ];
          emitted = emitted;
        }
  ]

  unfoldable pub discover : Str → DiscoverOptions → Result DiscoverError Discovery
  unfolding discover_stream
  discover root options =
      let streamed = discover_stream root options append_source [] in
      elim streamed.emitted.failure [
        | none ↦ ok (record { projects = streamed.projects; sources = streamed.emitted.state })
        | some e ↦ err e
      ]
