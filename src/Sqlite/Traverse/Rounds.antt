-- ===== src/Sqlite/Traverse/Rounds.antt =====
-- storage/sqlite/sqlite.go: the starts and rounds of Traverse, and the limits of a request.
use agent_graph.Prelude.{
  ℕ, zero, suc, ◌+◌, ◌≤◌, ◌<◌, Str, List, [], ◌∷◌, ◌++◌, true, false, Option, none, some, ◌≡◌, refl,
  arith, In, if◌then◌else◌, ◌>>=◌, ◌==◌, str_eq, nat_eq, length, mem, Result, ok, err, bind_ok, inl,
  inr, subst, Bool-cases, Option-cases, if_ind,
}
use agent_graph.Graph.Types.{Node, Edge}
use agent_graph.GoSort.Strings.{In-sort_strings}
use agent_graph.Query.Types.{
  TraversalDirection, truncated_by_depth_limit, QueryError, request_invalid,
}
use agent_graph.Sqlite.Traverse.{
  Reads, add_truncation_reason, out_of_scope, is_full, traversal_neighbor, unique_strings,
  unique_sorted_strings, Selection, includes_relation, is_selected, add_node, reach_found,
  follow_neighbor, follow_edge, follow_edges, expand_frontier, expand_rounds,
  has_traversable_neighbor, check_depth, Started, begun, cut_short, select_starts,
}
use agent_graph.Sqlite.Traverse.Selected.{
  here, onward, Reached, IsSelection, Kept, selected_assign, Kept-add_node, Kept-next, Kept-trans,
  IsSelection-other, Kept-reach_neighbor,
}

-- A node is read under its own id: `WHERE node_id = ?`.
abbrev pub NamesNodes : Reads → Type 0
NamesNodes reads = (id : Str) (node : Node) → reads.read_node id ≡ ok (some node) → node.id ≡ id

In-unique_sorted_strings : (a : Str) (xs : List Str) → In a (unique_sorted_strings xs) → In a xs
unfolding unique_sorted_strings
In-unique_sorted_strings a xs i = drop_repeats xs ((In-sort_strings a (unique_strings xs)).0 i)
  where
    drop_repeats : (ys : List Str) → In a (unique_strings ys) → In a ys
    drop_repeats [] = λ j. j
    drop_repeats (y ∷ ys) =
        if_ind (λ r. In a r → In a (y ∷ ys)) (mem y (unique_strings ys))
          (λ t j. inr (drop_repeats ys j))
          (λ f j. elim j [ inl e ↦ inl e | inr k ↦ inr (drop_repeats ys k) ])

module _ (reads : Reads) (direction : TraversalDirection) (relations scoped : List Str) (limit : ℕ)
    (start_ids : List Str) (names : NamesNodes reads) where
  abbrev Within : ℕ → Str → Type 0
  Within depth id = Reached reads direction relations scoped limit start_ids depth id

  abbrev Holds : ℕ → Selection → Type 0
  Holds depth s = IsSelection reads direction relations scoped limit start_ids depth s

  abbrev Stays : ℕ → Selection → Selection → Type 0
  Stays depth s t = Kept reads direction relations scoped limit start_ids depth s t

  Within-le : (k l : ℕ) (id : Str) → k ≤ l → Within k id → Within l id
  Within-le k l id h (start, n, i, below, walk) = (start, n, i, omega (arith, h, below), walk)

  pub Holds-le : (k l : ℕ) (s : Selection) → k ≤ l → Holds k s → Holds l s
  Holds-le k l s h holds = record {
    bounded = holds.bounded;
    nodes = λ entry i. let (e, r) = holds.nodes entry i in (e, Within-le k l entry.0 h r);
    edges = holds.edges;
    next = λ id i. let (r, g) = holds.next id i in (Within-le k l id h r, g);
  }

  Stays-refl : (depth : ℕ) (s : Selection) → Holds depth s → Stays depth s s
  Stays-refl depth s h = (h, λ id g. g)

  follow_edge-Stays :
      (depth : ℕ) (node_id : Str) (all : List Edge) (edge : Edge) (s : Selection) {t : Selection}
      → reads.read_incident_edges node_id ≡ ok all
      → In edge all
      → Within depth node_id
      → is_selected node_id s ≡ true
      → Holds (suc depth) s
      → follow_edge reads direction relations scoped limit node_id edge s ≡ ok t
      → Stays (suc depth) s t
  follow_edge-Stays depth node_id all edge s {t} read i within selected holds h =
      elim (Bool-cases (includes_relation relations edge)) [
        | inr f ↦ same (ground (arith, f, h))
        | inl included ↦ elim (Option-cases (traversal_neighbor node_id edge direction)) [
          | inl n ↦ same (ground (arith, included, n, h))
          | inr (next, leads) ↦
              let p : follow_neighbor reads direction relations scoped limit edge s (some next)
                  ≡ ok t =
                ground (arith, included, leads, h) in
              let (found, got, done) = bind_ok (reads.read_node next) _ p in
              to found next included leads got (ground (arith, done))
        ]
      ]
    where
      same : s ≡ t → Stays (suc depth) s t
      same e = subst (Stays (suc depth) s) e (Stays-refl (suc depth) s holds)

      to :
          (found : Option Node) (next : Str)
          → includes_relation relations edge ≡ true
          → traversal_neighbor node_id edge direction ≡ some next
          → reads.read_node next ≡ ok found
          → reach_found reads direction relations scoped limit next edge s found ≡ t
          → Stays (suc depth) s t
      to none next included leads got done = same done
      to (some node) next included leads got done =
          let (start, n, j, below, walk) = within in
          let further : Within (suc depth) next =
            (start, suc n, j, omega (arith, below), onward all edge walk read i included leads) in
          subst (Stays (suc depth) s) done (
            Kept-reach_neighbor reads direction relations scoped limit start_ids (suc depth) node_id
              next node edge s leads selected (names next node got) further holds)

  follow_edges-Stays :
      (depth : ℕ) (node_id : Str) (all edges : List Edge) (s : Selection) {t : Selection}
      → reads.read_incident_edges node_id ≡ ok all
      → ((e : Edge) → In e edges → In e all)
      → Within depth node_id
      → is_selected node_id s ≡ true
      → Holds (suc depth) s
      → follow_edges reads direction relations scoped limit node_id edges s ≡ ok t
      → Stays (suc depth) s t
  unfolding follow_edges
  follow_edges-Stays depth node_id all [] s {t} read sub within selected holds h =
      subst (Stays (suc depth) s) (ground (arith, h)) (Stays-refl (suc depth) s holds)
  follow_edges-Stays depth node_id all (edge ∷ edges) s {t} read sub within selected holds h =
      let (middle, first, rest) =
        bind_ok (follow_edge reads direction relations scoped limit node_id edge s) _ h in
      let one =
        follow_edge-Stays depth node_id all edge s read (sub edge (inl refl)) within selected holds
          first in
      Kept-trans reads direction relations scoped limit start_ids (suc depth) s middle t one (
        follow_edges-Stays depth node_id all edges middle read (λ e i. sub e (inr i)) within
          (one.1 node_id selected) one.0 rest)

  expand_frontier-Stays :
      (depth : ℕ) (frontier : List Str) (s : Selection) {t : Selection}
      → ((id : Str) → In id frontier → Within depth id × (is_selected id s ≡ true))
      → Holds (suc depth) s
      → expand_frontier reads direction relations scoped limit frontier s ≡ ok t
      → Stays (suc depth) s t
  unfolding expand_frontier
  expand_frontier-Stays depth [] s {t} front holds h =
      subst (Stays (suc depth) s) (ground (arith, h)) (Stays-refl (suc depth) s holds)
  expand_frontier-Stays depth (node_id ∷ frontier) s {t} front holds h =
      let (edges, read, rest) = bind_ok (reads.read_incident_edges node_id) _ h in
      let (middle, first, later) =
        bind_ok (follow_edges reads direction relations scoped limit node_id edges s) _ rest in
      let (within, selected) = front node_id (inl refl) in
      let one =
        follow_edges-Stays depth node_id edges edges s read (λ e i. i) within selected holds
          first in
      Kept-trans reads direction relations scoped limit start_ids (suc depth) s middle t one (
        expand_frontier-Stays depth frontier middle
          (λ id i. let (w, g) = front id (inr i) in (w, one.1 id g)) one.0 later)

  pub expand_rounds-Holds :
      (rounds depth : ℕ) (frontier : List Str) (s : Selection) {left : List Str} {t : Selection}
      → ((id : Str) → In id frontier → Within depth id × (is_selected id s ≡ true))
      → Holds depth s
      → expand_rounds reads direction relations scoped limit rounds frontier s ≡ ok (left, t)
      → Holds (depth + rounds) t
  unfolding expand_rounds
  expand_rounds-Holds zero depth frontier s front holds h =
      subst (Holds (depth + 0)) (ground (arith, h))
        (Holds-le depth (depth + 0) s (omega arith) holds)
  expand_rounds-Holds (suc rounds) depth [] s front holds h =
      subst (Holds (depth + suc rounds)) (ground (arith, h))
        (Holds-le depth (depth + suc rounds) s (omega arith) holds)
  expand_rounds-Holds (suc rounds) depth (f ∷ fs) s {left} {t} front holds h =
      let (reached, first, rest) =
        bind_ok
          (expand_frontier reads direction relations scoped limit (f ∷ fs) (record s { next = [] }))
          _ h in
      let deeper = Holds-le depth (suc depth) s (omega arith) holds in
      let one =
        expand_frontier-Stays depth (f ∷ fs) (record s { next = [] }) front
          (record {
            bounded = deeper.bounded;
            nodes = deeper.nodes;
            edges = deeper.edges;
            next = λ id i. absurd i;
          })
          first in
      let end =
        expand_rounds-Holds rounds (suc depth) (unique_sorted_strings reached.next) reached
          (λ id i. one.0.next id (In-unique_sorted_strings id reached.next i)) one.0 rest in
      subst (λ d. Holds d t) (omega arith) end

  pub check_depth-Holds :
      (depth : ℕ) (frontier : List Str) (s : Selection) {t : Selection}
      → Holds depth s
      → check_depth reads direction relations scoped limit frontier s ≡ ok t
      → Holds depth t
  unfolding check_depth
  check_depth-Holds depth [] s holds h = subst (Holds depth) (ground (arith, h)) holds
  check_depth-Holds depth (node_id ∷ frontier) s {t} holds h =
      let (edges, read, rest) = bind_ok (reads.read_incident_edges node_id) _ h in
      if_ind (λ (r : Result QueryError Selection). r ≡ ok t → Holds depth t)
        (has_traversable_neighbor reads direction relations scoped limit node_id edges s)
        (λ left e.
          let reasons = add_truncation_reason truncated_by_depth_limit s.reasons in
          let same : record s { reasons = reasons } ≡ t = ground (arith, e) in
          subst (Holds depth) same (
            IsSelection-other reads direction relations scoped limit start_ids depth reasons
              s.boundary s holds))
        (λ none_left e. check_depth-Holds depth frontier s holds e) rest

  -- What a start leaves, whichever way it ends.
  abbrev pub StartHolds : Started reads direction relations scoped limit → Type 0
  StartHolds (begun s) = Holds 0 s
  StartHolds (cut_short s) = Holds 0 s

  start_selected :
      (node_id : Str) (node : Node) (s : Selection)
      → length s.nodes < limit
      → In node_id start_ids
      → node.id ≡ node_id
      → Holds 0 s
      → Holds 0 (add_node node_id node (record s { next = s.next ++ node_id ∷ [] }))
  start_selected node_id node s room i e holds =
      let within : Within 0 node_id = (node_id, 0, i, omega arith, here) in
      let added = add_node node_id node s in
      let first =
        Kept-add_node reads direction relations scoped limit start_ids 0 node_id node s room e
          within holds in
      let selected : is_selected node_id added ≡ true =
        (selected_assign reads direction relations scoped limit start_ids node_id node_id node
            s.nodes).1
          refl in
      let both =
        Kept-next reads direction relations scoped limit start_ids 0 node_id added within selected
          first.0 in
      both.0

  pub select_starts-Holds :
      (ids : List Str) (s : Selection) {r : Started reads direction relations scoped limit}
      → ((id : Str) → In id ids → In id start_ids)
      → Holds 0 s
      → select_starts reads direction relations scoped limit ids s ≡ ok r
      → StartHolds r
  unfolding select_starts
  select_starts-Holds [] s {r} sub holds h =
      let same : begun s ≡ r = ground (arith, h) in subst StartHolds same holds
  select_starts-Holds (node_id ∷ ids) s {r} sub holds h =
      elim (Bool-cases (is_selected node_id s)) [
        | inl t ↦ select_starts-Holds ids s (λ id i. sub id (inr i)) holds (ground (arith, t, h))
        | inr f ↦
            let p : (reads.read_node node_id >>= λ found. elim found [
              | none ↦ select_starts reads direction relations scoped limit ids s
              | some node ↦ one node
            ])
                ≡ ok r =
              ground (arith, f, h) in
            let (found, got, done) = bind_ok (reads.read_node node_id) _ p in
            to found got done (λ t k. select_starts-Holds ids t (λ id i. sub id (inr i)) k)
      ]
    where
      one : Node → Result QueryError (Started reads direction relations scoped limit)
      one node =
          if out_of_scope scoped node_id
          then err request_invalid
          else elim (is_full reads direction relations scoped limit s) [
            | true ↦ ok (cut_short s)
            | false ↦
                select_starts reads direction relations scoped limit ids
                  (add_node node_id node (record s { next = s.next ++ node_id ∷ [] }))
          ]

      to :
          (found : Option Node)
          → reads.read_node node_id ≡ ok found
          → (elim found [
            | none ↦ select_starts reads direction relations scoped limit ids s
            | some node ↦ one node
          ])
            ≡ ok r
          → ((t : Selection)
              → Holds 0 t
              → select_starts reads direction relations scoped limit ids t ≡ ok r
              → StartHolds r)
          → StartHolds r
      to none got done later = later s holds done
      to (some node) got done later = elim (Bool-cases (out_of_scope scoped node_id)) [
        | inl t ↦ absurd (ground (arith, t, done))
        | inr f ↦ elim (Bool-cases (length s.nodes == limit)) [
          | inl full ↦
              let same : cut_short s ≡ r = ground (arith, f, full, done) in
              subst StartHolds same holds
          | inr room ↦
              later _
                (start_selected node_id node s (ground (arith, room, holds.bounded))
                  (sub node_id (inl refl)) (names node_id node got) holds)
                (ground (arith, f, room, done))
        ]
      ]
