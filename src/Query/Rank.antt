-- ===== src/Query/Rank.antt =====
-- query/rank.go: Rank, on text of ASCII. `sort.Slice` is an insertion sort: Go leaves the order of nodes that are
-- equal in all it compares open.
pub mod Best
mod Examples
use agent_graph.Prelude.{
  ℕ, Str, List, [], ◌∷◌, ◌++◌, Option, none, some, Bool, true, false, ◌==◌, str_eq, nat_eq, ◌&&◌,
  ◌||◌, not, if◌then◌else◌, leb, ltb, mem, length, take, min, map, is_empty, str_ltb,
}
use agent_graph.GoPath.{has_prefix}
use agent_graph.GoStrings.{to_lower, contains}
use agent_graph.Graph.Types.{Node}
use agent_graph.Query.Find.{max_seeds_per_term}
use agent_graph.Query.Snapshot.{SeedSet}

abbrev pub is_letter_or_digit : ℕ → Bool
is_letter_or_digit c =
    (leb b'a' c && leb c b'z') || (leb b'A' c && leb c b'Z') || (leb b'0' c && leb c b'9')

-- `strings.FieldsFunc` at what is neither a letter nor a digit; `field` is the one that is read.
unfoldable pub fields_from : Str → Str → List Str
fields_from field [] = if is_empty field then [] else field ∷ []
fields_from field (c ∷ cs) = elim (is_letter_or_digit c) [
  | true ↦ fields_from (field ++ c ∷ []) cs
  | false ↦ let rest = fields_from [] cs in if is_empty field then rest else field ∷ rest
]

unfoldable pub any_prefix : Str → List Str → Bool
any_prefix term [] = false
any_prefix term (token ∷ tokens) = has_prefix (to_lower token) term || any_prefix term tokens

unfoldable pub has_token_prefix : Str → Str → Bool
has_token_prefix value term = any_prefix term (fields_from [] value)

unfoldable pub match_rank : Node → Str → Option ℕ
match_rank node term =
    if node.id == term
    then some 0
    else if node.qualified_name == term
    then some 1
    else if node.label == term
    then some 2
    else let query = to_lower term in
      if has_prefix (to_lower node.label) query
        || has_token_prefix node.label query
        || has_token_prefix node.qualified_name query
      then some 3
      else if contains (to_lower node.evidence.span.path) query
      then some 4
      else if contains (to_lower node.id) query
          || contains (to_lower node.qualified_name) query
          || contains (to_lower node.label) query
      then some 5
      else none

pub record RankedNode : Type 0 where
  pub node : Node
  pub rank : ℕ

unfoldable pub rank_nodes : Str → List Node → List RankedNode
rank_nodes term [] = []
rank_nodes term (node ∷ nodes) =
    let rest = rank_nodes term nodes in
    elim (match_rank node term) [
      | none ↦ rest
      | some rank ↦ record { node = node; rank = rank } ∷ rest
    ]

unfoldable pub ranks_before : RankedNode → RankedNode → Bool
ranks_before left right =
    if not (left.rank == right.rank)
    then ltb left.rank right.rank
    else if not (left.node.qualified_name == right.node.qualified_name)
    then str_ltb left.node.qualified_name right.node.qualified_name
    else if not (left.node.label == right.node.label)
    then str_ltb left.node.label right.node.label
    else str_ltb left.node.id right.node.id

unfoldable pub insert_ranked : RankedNode → List RankedNode → List RankedNode
insert_ranked x [] = x ∷ []
insert_ranked x (y ∷ ys) =
    let rest = insert_ranked x ys in if ranks_before y x then y ∷ rest else x ∷ y ∷ ys

unfoldable pub sort_ranked : List RankedNode → List RankedNode
sort_ranked [] = []
sort_ranked (x ∷ xs) = insert_ranked x (sort_ranked xs)

-- The loop that selects a node for each id.
unfoldable pub select_nodes : List Str → List RankedNode → List Node
select_nodes seen [] = []
select_nodes seen (x ∷ xs) = elim (mem x.node.id seen) [
  | true ↦ select_nodes seen xs
  | false ↦ x.node ∷ select_nodes (x.node.id ∷ seen) xs
]

unfoldable pub rank_term_matches : List Node → Str → List Node
rank_term_matches nodes term =
    if term == [] then [] else select_nodes [] (sort_ranked (rank_nodes term nodes))

unfoldable pub rank_term : List Node → Str → List Node
rank_term nodes term =
    let matches = rank_term_matches nodes term in
    take (min (length matches) max_seeds_per_term) matches

abbrev pub rank : List Node → List Str → List SeedSet
rank nodes terms = map (λ term. record { term = term; nodes = rank_term nodes term }) terms
