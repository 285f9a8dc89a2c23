-- ===== src/Query/Path/Spec.antt =====
-- query/path.go: walks over the facts, without the search.
use agent_graph.Prelude.{ℕ, zero, suc, Str, List, [], ◌∷◌, Bool, true, ◌≡◌, In, ◌⊎◌}
use agent_graph.Graph.Types.{Node, Edge, Facts}

-- The edge leads from one id to the other; if direction does not count, either way.
abbrev pub Joins : Bool → Edge → Str → Str → Type 0
Joins undirected edge a b =
    ((edge.source_id ≡ a) × (edge.target_id ≡ b))
    ⊎ ((undirected ≡ true) × (edge.target_id ≡ a) × (edge.source_id ≡ b))

abbrev pub IsKnown : Facts → Str → Type 0
IsKnown facts id = (node : Node) × In node facts.nodes × (node.id ≡ id)

-- There is a walk of this many edges over known nodes.
abbrev pub Walk : Facts → Bool → Str → Str → ℕ → Type 0
Walk facts undirected a b zero = a ≡ b
Walk facts undirected a b (suc n) =
    (c : Str) × (edge : Edge) × Walk facts undirected a c n
    × In edge facts.edges
    × Joins undirected edge c b
    × IsKnown facts b

-- The nodes and the edges alternate along a path from one id to another.
abbrev pub IsPath : Facts → Bool → Str → Str → List Node → List Edge → Type 0
IsPath facts undirected a b [] edges = ⊥
IsPath facts undirected a b (node ∷ []) [] = (node.id ≡ a) × (a ≡ b) × In node facts.nodes
IsPath facts undirected a b (node ∷ []) (edge ∷ edges) = ⊥
IsPath facts undirected a b (node ∷ next ∷ nodes) [] = ⊥
IsPath facts undirected a b (node ∷ next ∷ nodes) (edge ∷ edges) =
    (node.id ≡ a)
    × In node facts.nodes
    × In edge facts.edges
    × Joins undirected edge a next.id
    × IsPath facts undirected next.id b (next ∷ nodes) edges
