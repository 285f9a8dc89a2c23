-- ===== src/Query/Find/Found.antt =====
-- query/path.go: what a path that FindPathSnapshot returns is.
use agent_graph.Prelude.{
  ℕ, Str, List, [], ◌∷◌, Option, none, some, Result, ok, err, ◌>>=◌, Bool, true, false, ◌||◌, not,
  if◌then◌else◌, ◌≡◌, ◌≢◌, inl, inr, refl, sym, ap, arith, ◌∙◌, subst, Bool-cases, length, is_empty,
  ◌≤◌, str_eq,
}
use agent_graph.Graph.Types.{Node, Edge, Facts}
use agent_graph.Query.Types.{
  NodeMatch, traverse_outgoing, traverse_both, TraversalResult, QueryError, NodeLookup, Traverser,
  PathRequest,
}
use agent_graph.Query.Path.{PathResult}
use agent_graph.Query.Path.Spec.{Walk, IsPath}
use agent_graph.Query.Path.Shortest.{IsShortest, shortest_path_lem}
use agent_graph.Query.Find.{
  path_endpoint_matches, node_matches, with_traversal_scope_boundary, path_between,
  traversal_request, fall_back, search_path, ambiguous, find_between, find_path_snapshot,
}

-- The path is the shortest one of the facts that a traversal gave, between the only node that matches the source
-- and the only one that matches the target.
pub record IsFound (lookup : NodeLookup) (traverse : Traverser) (request : PathRequest)
    (result : PathResult) : Type 0 where
  pub source : Node
  pub target : Node
  pub traversal : TraversalResult
  pub sources :
      (matches : List NodeMatch) × (path_endpoint_matches lookup request.source ≡ ok matches)
      × (node_matches matches ≡ source ∷ [])
  pub targets :
      (matches : List NodeMatch) × (path_endpoint_matches lookup request.target ≡ ok matches)
      × (node_matches matches ≡ target ∷ [])
  pub traversed :
      traverse (
        traversal_request request source
          (if result.used_undirected_fallback then traverse_both else traverse_outgoing))
      ≡ ok traversal
  pub path :
      IsPath traversal.facts result.used_undirected_fallback source.id target.id result.nodes
        result.edges
  pub shortest :
      (n : ℕ)
      → Walk traversal.facts result.used_undirected_fallback source.id target.id n
      → length result.edges ≤ n
  pub allowed : result.used_undirected_fallback ≡ true → request.allow_undirected_fallback ≡ true

bind-ok :
    {A B : Type 0} (r : Result QueryError A) (f : A → Result QueryError B) {b : B}
    → r >>= f ≡ ok b
    → (a : A) × (r ≡ ok a) × (f a ≡ ok b)
bind-ok (ok a) f h = (a, refl, h)
bind-ok (err e) f h = cc h

path_between-IsShortest :
    (facts : Facts) (a b : Str) (undirected : Bool)
    → IsShortest facts undirected a b (path_between facts a b undirected)
unfolding path_between
path_between-IsShortest facts a b undirected =
    let (result, e, s) = shortest_path_lem facts a b undirected in
    subst (IsShortest facts undirected a b) {x = result} (ground (arith, e)) s

-- A result of `shortestPath` that is not empty, whatever other fields are set.
filled-IsPath :
    (facts : Facts) (a b : Str) (undirected : Bool)
    → (path_between facts a b undirected).nodes ≢ []
    → IsPath facts undirected a b
        (path_between facts a b undirected).nodes
        (path_between facts a b undirected).edges
      × ((n : ℕ)
          → Walk facts undirected a b n
          → length (path_between facts a b undirected).edges ≤ n)
      × ((path_between facts a b undirected).used_undirected_fallback ≡ false)
filled-IsPath facts a b undirected filled =
    let (plain, found) = path_between-IsShortest facts a b undirected in
    elim found [
      | inl (e, _) ↦ absurd (filled (ap (λ (r : PathResult). r.nodes) e))
      | inr (path, shortest) ↦
          (path, shortest, ap (λ (r : PathResult). r.used_undirected_fallback) plain)
    ]

-- To set the boundary changes neither the path nor the flags.
boundary_frame :
    (result : PathResult) (boundary : Option Node)
    → ((with_traversal_scope_boundary result boundary).nodes ≡ result.nodes)
      × ((with_traversal_scope_boundary result boundary).edges ≡ result.edges)
      × ((with_traversal_scope_boundary result boundary).used_undirected_fallback
          ≡ result.used_undirected_fallback)
boundary_frame result none = (refl, refl, refl)
boundary_frame result (some node) = ground arith

-- What the two searches give, in terms of the fields of the result.
abbrev Good : Traverser → PathRequest → Node → Node → List Node → List Edge → Bool → Type 0
Good traverse request source target nodes edges used =
    (traversal : TraversalResult) × (traverse
        (traversal_request request source (if used then traverse_both else traverse_outgoing))
      ≡ ok traversal)
    × IsPath traversal.facts used source.id target.id nodes edges
    × ((n : ℕ) → Walk traversal.facts used source.id target.id n → length edges ≤ n)
    × (used ≡ true → request.allow_undirected_fallback ≡ true)

abbrev GoodResult : Traverser → PathRequest → Node → Node → PathResult → Type 0
GoodResult traverse request source target r =
    Good traverse request source target r.nodes r.edges r.used_undirected_fallback

module _ (traverse : Traverser) (request : PathRequest) (source target : Node) where
  bounded :
      (r : PathResult) (boundary : Option Node)
      → GoodResult traverse request source target r
      → GoodResult traverse request source target (with_traversal_scope_boundary r boundary)
  bounded r boundary g =
      let (n, e, u) = boundary_frame r boundary in
      subst
        (λ ns.
          Good traverse request source target ns (with_traversal_scope_boundary r boundary).edges
            (with_traversal_scope_boundary r boundary).used_undirected_fallback)
        (sym n)
        (subst
          (λ es.
            Good traverse request source target r.nodes es
              (with_traversal_scope_boundary r boundary).used_undirected_fallback)
          (sym e) (subst (λ b. Good traverse request source target r.nodes r.edges b) (sym u) g))

  directed :
      (t : TraversalResult)
      → traverse (traversal_request request source traverse_outgoing) ≡ ok t
      → (path_between t.facts source.id target.id false).nodes ≢ []
      → GoodResult traverse request source target (path_between t.facts source.id target.id false)
  directed t asked filled =
      let (path, shortest, unused) = filled-IsPath t.facts source.id target.id false filled in
      subst
        (λ b.
          Good traverse request source target (path_between t.facts source.id target.id false).nodes
            (path_between t.facts source.id target.id false).edges b)
        (sym unused) (t, asked, path, shortest, λ e. cc e)

  undirected :
      (t : TraversalResult)
      → request.allow_undirected_fallback ≡ true
      → traverse (traversal_request request source traverse_both) ≡ ok t
      → (path_between t.facts source.id target.id true).nodes ≢ []
      → Good traverse request source target
          (path_between t.facts source.id target.id true).nodes
          (path_between t.facts source.id target.id true).edges
          true
  undirected t allowed asked filled =
      let (path, shortest, _) = filled-IsPath t.facts source.id target.id true filled in
      (t, asked, path, shortest, λ _. allowed)

  filled_before :
      (r s : PathResult) (boundary : Option Node)
      → with_traversal_scope_boundary s boundary ≡ r
      → r.nodes ≢ []
      → s.nodes ≢ []
  filled_before r s boundary e filled empty =
      filled (ap (λ (x : PathResult). x.nodes) (sym e) ∙ (boundary_frame s boundary).0 ∙ empty)

  fell_back :
      (t : TraversalResult) (r : PathResult)
      → request.allow_undirected_fallback ≡ true
      → traverse (traversal_request request source traverse_both) ≡ ok t
      → fall_back source target t ≡ r
      → r.nodes ≢ []
      → GoodResult traverse request source target r
  fell_back t r allowed asked e filled =
      let result = path_between t.facts source.id target.id true in
      let flagged : PathResult = record result {
        undirected_fallback_attempted = true;
        used_undirected_fallback = not (is_empty result.nodes);
      } in
      let some_nodes = filled_before r flagged t.scope_boundary e filled in
      subst (GoodResult traverse request source target) e (
        bounded flagged t.scope_boundary (
          subst (λ b. Good traverse request source target result.nodes result.edges b)
            (not_empty result.nodes some_nodes) (undirected t allowed asked some_nodes)))
    where
      not_empty : (nodes : List Node) → nodes ≢ [] → true ≡ not (is_empty nodes)
      not_empty [] n = absurd (n refl)
      not_empty (x ∷ nodes) n = refl

  searched :
      (t : TraversalResult) (r : PathResult)
      → traverse (traversal_request request source traverse_outgoing) ≡ ok t
      → search_path traverse request source target t ≡ ok r
      → r.nodes ≢ []
      → GoodResult traverse request source target r
  searched t r asked h filled =
      let result = path_between t.facts source.id target.id false in
      elim (Bool-cases (not (is_empty result.nodes) || not request.allow_undirected_fallback)) [
        | inl done ↦
            let e : with_traversal_scope_boundary result t.scope_boundary ≡ r =
              ground (arith, h, done) in
            subst (GoodResult traverse request source target) e (
              bounded result t.scope_boundary
                (directed t asked (filled_before r result t.scope_boundary e filled)))
        | inr more ↦
            let again : traverse (traversal_request request source traverse_both)
                  >>= (λ fallback. ok (fall_back source target fallback))
                ≡ ok r =
              ground (arith, h, more) in
            let (fallback, asked', e) =
              bind-ok (traverse (traversal_request request source traverse_both))
                (λ fallback. ok (fall_back source target fallback)) again in
            fell_back fallback r (ground (arith, more)) asked' (ground (arith, e)) filled
      ]

abbrev GoodBetween : Traverser → PathRequest → List Node → List Node → PathResult → Type 0
GoodBetween traverse request sources targets r =
    (source : Node) × (target : Node) × (sources ≡ source ∷ [])
    × (targets ≡ target ∷ [])
    × GoodResult traverse request source target r

nothing_found :
    (sources targets : List Node) (r : PathResult) (X : Type 0)
    → ◌≡◌ {A = Result QueryError PathResult} (ok (ambiguous sources targets)) (ok r)
    → r.nodes ≢ []
    → X
nothing_found sources targets r X h filled =
    let e : ambiguous sources targets ≡ r = ground (arith, h) in
    absurd (filled (ap (λ (x : PathResult). x.nodes) (sym e)))

found_between :
    (traverse : Traverser) (request : PathRequest) (sources targets : List Node) (r : PathResult)
    → find_between traverse request sources targets ≡ ok r
    → r.nodes ≢ []
    → GoodBetween traverse request sources targets r
unfolding find_between
found_between traverse request (source ∷ []) (target ∷ []) r h filled =
    let (t, asked, searching) =
      bind-ok (traverse (traversal_request request source traverse_outgoing))
        (λ traversal. search_path traverse request source target traversal) h in
    (source, target, refl, refl, searched traverse request source target t r asked searching filled)
found_between traverse request [] targets r h filled = nothing_found [] targets r _ h filled
found_between traverse request (s ∷ s' ∷ sources) targets r h filled =
    nothing_found (s ∷ s' ∷ sources) targets r _ h filled
found_between traverse request (s ∷ []) [] r h filled = nothing_found (s ∷ []) [] r _ h filled
found_between traverse request (s ∷ []) (t ∷ t' ∷ targets) r h filled =
    nothing_found (s ∷ []) (t ∷ t' ∷ targets) r _ h filled

-- A result of `FindPathSnapshot` that has nodes is the shortest path of the facts that a traversal gave, between
-- the only node that matches the source and the only one that matches the target. The traversal and the path
-- follow edges against their direction only if the result says so, and it says so only if the request allows it.
pub find_path_snapshot-IsFound :
    (lookup : NodeLookup) (traverse : Traverser) (request : PathRequest) (result : PathResult)
    → find_path_snapshot (some lookup) (some traverse) request ≡ ok result
    → result.nodes ≢ []
    → IsFound lookup traverse request result
unfolding find_path_snapshot
find_path_snapshot-IsFound lookup traverse request result h filled =
    let valid : path_endpoint_matches lookup request.source >>= (λ sources.
      path_endpoint_matches lookup request.target >>= λ targets.
      find_between traverse request (node_matches sources) (node_matches targets))
        ≡ ok result =
      ground (arith, h) in
    let (sources, es, h') =
      bind-ok (path_endpoint_matches lookup request.source)
        (λ sources. path_endpoint_matches lookup request.target >>= λ targets.
          find_between traverse request (node_matches sources) (node_matches targets))
        valid in
    let (targets, et, h'') =
      bind-ok (path_endpoint_matches lookup request.target)
        (λ targets. find_between traverse request (node_matches sources) (node_matches targets))
        h' in
    let (source, target, s, t, (traversal, asked, path, shortest, allowed)) =
      found_between traverse request (node_matches sources) (node_matches targets) result h''
        filled in
    record {
      source = source;
      target = target;
      traversal = traversal;
      sources = (sources, es, s);
      targets = (targets, et, t);
      traversed = asked;
      path = path;
      shortest = shortest;
      allowed = allowed;
    }
