-- ===== src/Indexer/Pending.antt =====
-- indexer/queue.go: what each operation does to the pending paths.
use agent_graph.Prelude.{
  Str, List, [], ◌∷◌, Option, none, some, false, ◌≡◌, ◌≢◌, ◌↔◌, refl, sym, arith, lookup, is_some,
  str_eq, Bool-cases, Result-cases, ◌⊎◌, inl, inr, ◌∙◌, subst, is_empty, ◌&&◌, not, if_ind, ◌++◌,
  In, In-append, In-append_left, In-append_right, mem,
}
use agent_graph.Prelude.Int.{ℤ}
use agent_graph.Indexer.Types.{Worker, Manager, Fault, Owner}
use agent_graph.Indexer.EventPath.{normalize_event_path}
use agent_graph.Indexer.Queue.{
  enqueue_worker, begin_publish_worker, add_path, add_events, finish_publish_worker,
  schedule_pending, end_enqueue, reschedule,
}
use agent_graph.Indexer.Lifecycle.{Closing, close, keep_running, stop_round, halt, stopped}
use agent_graph.Indexer.Unique.{unique_paths_lem}
use agent_graph.Indexer.Workers.{map_worker, stop_found, start_found}
use agent_graph.Indexer.Runs.{Sound}
use agent_graph.Indexer.Operations.{batch_of, begin_publish_worker_cases}

pending-reschedule : (delay : ℤ) (w : Worker) → (reschedule delay w).pending ≡ w.pending
pending-reschedule delay w = ground arith

-- After a publication, the pending paths of the worker are those that came in meanwhile, and if it failed
-- also those it took.
pub pending-finish_publish_worker :
    (m : Manager) (paths : List Str) (error : Option Str) (w : Worker) (p : Str)
    → In p (finish_publish_worker m paths error w).pending
      ↔ ((In p paths × (error ≢ none)) ⊎ In p w.pending)
unfolding finish_publish_worker
pending-finish_publish_worker m paths none w p =
    rw pending-reschedule (λ i. inr i, λ i. elim i [ inl (_, e) ↦ absurd (e refl) | inr j ↦ j ])
pending-finish_publish_worker m paths (some e) w p =
    let q = (unique_paths_lem (paths ++ w.pending)).1 p in
    rw pending-reschedule (
      λ i. elim (In-append p paths w.pending (q.0 i)) [ inl j ↦ inl (j, λ f. cc) | inr j ↦ inr j ],
      λ i. elim i [
        | inl (j, _) ↦ q.1 (In-append_left p paths w.pending j)
        | inr j ↦ q.1 (In-append_right p paths w.pending j)
      ],
    )

add_path_keeps :
    (path : Str) (w : Worker) (p : Str) → In p w.pending → In p (add_path path w).pending
unfolding add_path
add_path_keeps path w p i =
    if_ind (λ (u : Worker). In p u.pending) (mem path w.pending_set) (λ _. i)
      (λ _. In-append_left p w.pending (path ∷ []) i)

pub add_events_keeps :
    (ws : Str) (w : Worker) (events : List Str) (p : Str)
    → In p w.pending
    → In p (add_events ws w events).0.pending
unfolding add_events
add_events_keeps ws w [] p i = i
add_events_keeps ws w (event ∷ events) p i = elim (Result-cases (normalize_event_path ws event)) [
  | inl (path, e) ↦
      rw (e, add_events)
        (add_events_keeps ws (add_path path w) events p (add_path_keeps path w p i))
  | inr (fault, e) ↦ rw (e, add_events) i
]

pub enqueue_worker_keeps :
    (throttle : ℤ) (ws : Str) (w : Worker) (events : List Str) (p : Str)
    → In p w.pending
    → In p (enqueue_worker throttle ws w events).0.pending
unfolding enqueue_worker
enqueue_worker_keeps throttle ws w events p i =
    if_ind (λ (r : Worker × Option Fault). In p r.0.pending) w.stopping (λ _. i)
      (λ _. ended (add_events ws w events) (add_events_keeps ws w events p i))
  where
    ended : (r : Worker × Option Fault) → In p r.0.pending → In p (end_enqueue throttle r).0.pending
    ended (w', some fault) j = j
    ended (w', none) j =
        unfold schedule_pending in
        if_ind (λ (u : Worker). In p u.pending)
          (not (is_empty w'.pending) && not w'.publishing && not (is_some w'.timer)) (λ _. j)
          (λ _. j)

-- The path waits in the worker, or is among those of the publication that runs.
abbrev pub Waiting : Option Worker → Str → Type 0
Waiting none p = ⊥
Waiting (some w) p = In p w.pending

abbrev pub Flying : Option (List Str) → Str → Type 0
Flying none p = ⊥
Flying (some paths) p = In p paths

abbrev pub Held : Option Worker → Option (List Str) → Str → Type 0
Held o r p = Waiting o p ⊎ Flying r p

pub Waiting-map :
    (f : Worker → Worker) (o : Option Worker) (r : Option (List Str)) (p : Str)
    → ((w : Worker) → In p w.pending → In p (f w).pending)
    → Held o r p
    → Held (map_worker f o) r p
Waiting-map f none r p h (inl i) = inl i
Waiting-map f (some w) r p h (inl i) = inl (h w i)
Waiting-map f o r p h (inr i) = inr i

pub Held-start :
    (m : Manager) (ws : Str) (now : ℤ) (acquired : Option Owner) (o : Option Worker)
    (r : Option (List Str)) (p : Str)
    → Held o r p
    → Held (start_found m ws now acquired o) r p
Held-start m ws now acquired (some w) r p h = h
Held-start m ws now acquired none r p (inl i) = absurd i
Held-start m ws now acquired none r p (inr i) = inr i

pub Held-begin :
    (o : Option Worker) (r : Option (List Str)) (p : Str)
    → Sound o r
    → Held o r p
    → Held (map_worker (λ w. (begin_publish_worker w).0) o) (batch_of o r) p
Held-begin none r p s h = h
Held-begin (some w) r p s h = elim (begin_publish_worker_cases w) [
  | inl (unchanged, nothing) ↦ rw (unchanged, nothing) h
  | inr (idle, busy, paths) ↦ rw paths (inr (taken_up r (sym idle ∙ s.1) h))
]
  where
    taken_up : (r : Option (List Str)) → false ≡ is_some r → Held (some w) r p → In p w.pending
    taken_up none e (inl i) = i
    taken_up none e (inr i) = absurd i
    taken_up (some paths) e i = cc

pub Held-stop :
    (m : Manager) (ws : Str) (closing : Closing) (o : Option Worker) (r : Option (List Str))
    (p : Str)
    → lookup ws m.workers ≡ o
    → Held o r p
    → Held (stop_found closing o) r p ⊎ ((stop_round m ws closing).1 ≡ stopped)
unfolding stop_round
Held-stop m ws closing none r p e h = inl h
Held-stop m ws closing (some w) r p e (inr i) = inl (inr i)
Held-stop m ws closing (some w) r p e (inl i) = elim (Bool-cases w.publishing) [
  | inl busy ↦ inl (inl (subst (λ o. Waiting o p) {x = some (halt w)} (ground (arith, busy)) i))
  | inr idle ↦ elim (Bool-cases (close closing w.owner).1) [
    | inl c ↦ inr (ground (arith, e, idle, c))
    | inr c ↦ inl (
        inl (
          subst (λ o. Waiting o p) {x = some (keep_running closing w)} (ground (arith, idle, c)) i))
  ]
]

pub Held-finish :
    (m : Manager) (paths : List Str) (error : Option Str) (o : Option Worker) (p : Str)
    → Sound o (some paths)
    → Held o (some paths) p
    → Held (map_worker (finish_publish_worker m paths error) o) none p
      ⊎ (In p paths × (error ≡ none))
Held-finish m paths error none p s h = ground arith
Held-finish m paths error (some w) p s (inl i) =
    inl (inl ((pending-finish_publish_worker m paths error w p).1 (inr i)))
Held-finish m paths none (some w) p s (inr i) = inr (i, refl)
Held-finish m paths (some e) (some w) p s (inr i) =
    inl (inl ((pending-finish_publish_worker m paths (some e) w p).1 (inl (i, λ f. cc))))
