-- ===== src/Query/Snapshot/Bounds.antt =====
-- query/rank.go and query/query.go: the seeds of a query.
use agent_graph.Prelude.{
  ℕ, suc, Str, List, [], ◌∷◌, some, Result, ok, err, ◌>>=◌, ◌≡◌, refl, ap, arith, ◌≤◌, inl, inr,
  Bool-cases, Option-cases, Result-cases, length, min, map, is_empty, All, length-take, subst,
  if_ind,
}
use agent_graph.Query.Types.{NodeMatch, QueryError, NodeLookup, Traverser}
use agent_graph.Query.Find.{max_seeds_per_term, node_matches}
use agent_graph.Query.Snapshot.{
  SeedSet, cut_or, lookup_term_matches, rank_terms, rank_snapshot, Request, QueryResult,
  start_node_ids, query_traversal, query_seeds, query_snapshot,
}

-- The store keeps to the limit that a lookup gives it.
abbrev pub RespectsLimit : NodeLookup → Type 0
RespectsLimit lookup =
    (text : Str) (limit : ℕ) (matches : List NodeMatch)
    → lookup.lookup_nodes text limit ≡ ok matches
    → length matches ≤ limit

abbrev Short : ℕ → Result QueryError (List NodeMatch) → Type 0
Short limit (ok matches) = length matches ≤ limit
Short limit (err e) = Unit {0}

Short-lookup :
    (lookup : NodeLookup) (limit : ℕ) (term : Str)
    → RespectsLimit lookup
    → Short limit (lookup.lookup_nodes term limit)
Short-lookup lookup limit term h = elim (Result-cases (lookup.lookup_nodes term limit)) [
  | inl (matches, e) ↦ rw e (h term limit matches e)
  | inr (error, e) ↦ rw e tt
]

lookup_term_matches-Short :
    (lookup : NodeLookup) (limit : ℕ) (term : Str)
    → RespectsLimit lookup
    → Short limit (lookup_term_matches lookup term limit)
unfolding lookup_term_matches
lookup_term_matches-Short lookup limit term h = elim (Option-cases (lookup.lookup_exact_nodes)) [
  | inl e ↦
      subst (Short limit) {x = lookup.lookup_nodes term limit} (ground (arith, e))
        (Short-lookup lookup limit term h)
  | inr (exact, e) ↦
      subst (Short limit)
        {x = exact term >>= λ matches. cut_or limit matches (lookup.lookup_nodes term limit)}
        (ground (arith, e)) (exactly (exact term))
]
  where
    exactly :
        (r : Result QueryError (List NodeMatch))
        → Short limit (r >>= λ matches. cut_or limit matches (lookup.lookup_nodes term limit))
    exactly (err error) = tt
    exactly (ok matches) =
        if_ind (Short limit) (is_empty matches) (λ _. Short-lookup lookup limit term h)
          (λ _. omega (arith, length-take (min (length matches) limit) matches))

length-node_matches : (matches : List NodeMatch) → length (node_matches matches) ≡ length matches
length-node_matches [] = refl
length-node_matches (m ∷ matches) = ap suc (length-node_matches matches)

-- A seed set for each term, in order, each of at most three nodes.
abbrev pub SeedsFor : List Str → List SeedSet → Type 0
SeedsFor terms seeds =
    (map (λ s. s.term) seeds ≡ terms) × All (λ s. length s.nodes ≤ max_seeds_per_term) seeds

abbrev Ranks : List Str → Result QueryError (List SeedSet) → Type 0
Ranks terms (ok seeds) = SeedsFor terms seeds
Ranks terms (err e) = Unit {0}

rank_terms-Ranks :
    (lookup : NodeLookup) (terms : List Str)
    → RespectsLimit lookup
    → Ranks terms (rank_terms lookup terms)
unfolding rank_terms
rank_terms-Ranks lookup [] h = (refl, tt)
rank_terms-Ranks lookup (term ∷ terms) h =
    both (lookup_term_matches lookup term max_seeds_per_term)
      (lookup_term_matches-Short lookup max_seeds_per_term term h) (rank_terms lookup terms)
      (rank_terms-Ranks lookup terms h)
  where
    both :
        (r : Result QueryError (List NodeMatch))
        → Short max_seeds_per_term r
        → (q : Result QueryError (List SeedSet)) → Ranks terms q
        → Ranks (term ∷ terms) (
            r >>= λ matches.
            q >>= λ seeds. ok (record { term = term; nodes = node_matches matches } ∷ seeds))
    both (err e) s q k = tt
    both (ok matches) s (err e) k = tt
    both (ok matches) s (ok seeds) (t, a) =
        (ap (λ ts. term ∷ ts) t, (omega (arith, s, length-node_matches matches), a))

seeds_of :
    (traverse : Traverser) (request : Request) (seeds : List SeedSet) (result : QueryResult)
    → query_seeds traverse request seeds ≡ ok result
    → seeds ≡ result.seeds
seeds_of traverse request seeds result h = elim (Bool-cases (is_empty (start_node_ids seeds))) [
  | inl e ↦ ground (arith, h, e)
  | inr f ↦ elim (Result-cases (traverse (query_traversal request (start_node_ids seeds)))) [
    | inl (traversal, e) ↦ ground (arith, h, f, e)
    | inr (error, e) ↦ ground (arith, h, f, e)
  ]
]

-- A query that succeeds has a seed set for each of its terms, in their order, of at most three nodes each, if the
-- store keeps to the limit that a lookup gives it.
pub query_snapshot-SeedsFor :
    (lookup : NodeLookup) (traverse : Traverser) (request : Request) (result : QueryResult)
    → RespectsLimit lookup
    → query_snapshot (some lookup) (some traverse) request ≡ ok result
    → SeedsFor request.terms result.seeds
unfolding query_snapshot rank_snapshot
query_snapshot-SeedsFor lookup traverse request result limit h =
    elim (Result-cases (rank_terms lookup request.terms)) [
      | inr (error, e) ↦ ground (arith, h, e)
      | inl (seeds, e) ↦
          subst (SeedsFor request.terms)
            (seeds_of traverse request seeds result (ground (arith, h, e)))
            (subst (Ranks request.terms) e (rank_terms-Ranks lookup request.terms limit))
    ]
