-- ===== src/Indexer/EventPath.antt =====
-- indexer/queue.go: normalizeEventPath. The result of `filepath.ToSlash` is its argument on Unix.
use agent_graph.Prelude.{
  Str, [], ◌∷◌, ◌++◌, none, some, Result, ok, err, Bool, ◌==◌, str_eq, ◌||◌, ◌&&◌, if◌then◌else◌,
  ltb, length, take,
}
use agent_graph.GoPath.{slash, dot, dot_dot, is_abs, clean, join, rel}
use agent_graph.Indexer.Types.{Fault, path_required, path_unresolved, path_outside}

abbrev pub parent_prefix : Str
parent_prefix = dot_dot ++ slash ∷ []

unfoldable pub is_parent_path : Str → Bool
is_parent_path path =
    ltb (length parent_prefix) (length path) && take (length parent_prefix) path == parent_prefix

abbrev pub absolute_path : Str → Str → Str
absolute_path workspace path = clean (if is_abs path then path else join workspace path)

unfoldable pub leaves_workspace : Str → Bool
unfolding is_parent_path
leaves_workspace relative =
    relative == dot || relative == dot_dot || is_abs relative || is_parent_path relative

unfoldable pub normalize_event_path : Str → Str → Result Fault Str
normalize_event_path workspace path =
    if path == [] then err path_required else elim (rel workspace (absolute_path workspace path)) [
      | none ↦ err path_unresolved
      | some relative ↦ if leaves_workspace relative then err path_outside else ok relative
    ]
