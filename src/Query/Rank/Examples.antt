-- ===== src/Query/Rank/Examples.antt =====
-- query/rank.go on four nodes.
use agent_graph.Prelude.{
  Str, bytes, List, [], ◌∷◌, ◌≡◌, ◌≤◌, refl, str_eq, Str-discrete, ℕ_discrete, str_ltb, In,
  Distinct, map, length,
}
use agent_graph.GoPath.{has_prefix}
use agent_graph.GoStrings.{contains}
use agent_graph.Graph.Types.{Node}
use agent_graph.Graph.Examples.{node}
use agent_graph.Query.Rank.{
  fields_from, any_prefix, has_token_prefix, match_rank, rank_nodes, ranks_before, insert_ranked,
  sort_ranked, select_nodes, rank_term_matches, rank_term,
}
use agent_graph.Query.Rank.Best.{IsMatch, rank_term_lem}

-- Evaluates the component.
run : Unit {0}
unfolding fields_from any_prefix has_token_prefix match_rank rank_nodes ranks_before insert_ranked
    sort_ranked select_nodes rank_term_matches rank_term has_prefix contains Str-discrete ℕ_discrete
    str_ltb
run = tt

abbrev pub named : Str → Node
named id = node id (bytes "file")

abbrev pub nodes : List Node
nodes =
    named (bytes "xrun") ∷ named (bytes "my_run") ∷ named (bytes "Run") ∷ named (bytes "run") ∷ []

rank_term-run :
    rank_term nodes (bytes "run")
    ≡ named (bytes "run") ∷ named (bytes "Run") ∷ named (bytes "my_run") ∷ []
unfolding run
rank_term-run = refl

rank_term_lem_example :
    (length (rank_term nodes (bytes "run")) ≤ 3)
    × Distinct (map (λ node. node.id) (rank_term nodes (bytes "run")))
    × ((node : Node) → In node (rank_term nodes (bytes "run")) → IsMatch nodes (bytes "run") node)
rank_term_lem_example = rank_term_lem nodes (bytes "run")
