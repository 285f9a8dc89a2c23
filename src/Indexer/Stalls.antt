-- ===== src/Indexer/Stalls.antt =====
-- indexer/queue.go and indexer/lifecycle.go: two calls that fail, and what follows them.
use agent_graph.Prelude.{
  Str, List, [], ◌∷◌, none, some, false, ◌≡◌, ◌≢◌, refl, sym, arith, In, lookup, str_eq,
  lookup-assign, ok, mem, mem→In, In-append_right, inl, inr, subst, if_ind, Bool-cases, List-cases,
  ap, ◌∙◌,
}
use agent_graph.Indexer.Types.{Worker, Fault}
use agent_graph.Indexer.EventPath.{normalize_event_path}
use agent_graph.Indexer.Queue.{enqueue, enqueue_worker, add_events, add_path}
use agent_graph.Indexer.Lifecycle.{ManagerOption, Closing, close, keep_running, stop_round, failed}
use agent_graph.Indexer.Invariant.{Inv, add_path_frame}
use agent_graph.Indexer.Runs.{System, enqueues, stops, Reach, Sound}
use agent_graph.Indexer.Soundness.{initial, Reach-IsSound}
use agent_graph.Indexer.Wakeup.{Serves, Serves-IsAwake}
use agent_graph.Indexer.Rests.{
  IsStalled, Stalled, Rests, add_events-IsStalled, enqueue_worker-refused, enqueue_accepts,
  Rests-Stalled, Stalled-worker,
}

-- A `Stop` that fails leaves a worker with pending paths stalled and without its reconciliation timer. From there, in
-- every run in which `Enqueue` refuses its events for the workspace, `Stop` does not succeed for it, and only a timer
-- that its worker has set publishes for it, the worker stays, idle and without a timer, and every path that was
-- pending still is.
pub stop_round_stalls :
    (options : List ManagerOption) {s t : System} (ws path : Str) (w : Worker) (closing : Closing)
    (fault : Fault)
    → Reach (initial options) s
    → lookup ws s.manager.workers ≡ some w
    → In path w.pending
    → (stop_round s.manager ws closing).1 ≡ failed fault
    → Rests ws (record s { manager = (stop_round s.manager ws closing).0 }) t
    → ((v : Worker) × (lookup ws (stop_round s.manager ws closing).0.workers ≡ some v)
        × (v.reconcile_timer ≡ none))
      × ((u : Worker) × (lookup ws t.manager.workers ≡ some u)
          × IsStalled path w.status.queued_paths u)
unfolding stop_round
stop_round_stalls options {s} {t} ws path w closing fault reach found pending failing rests =
    elim (Bool-cases w.publishing) [
      | inl busy ↦ absurd (ground (arith, found, busy, failing))
      | inr idle ↦ elim (Bool-cases (close closing w.owner).1) [
        | inl done ↦ absurd (ground (arith, found, idle, done, failing))
        | inr refused ↦
            let now : lookup ws (stop_round s.manager ws closing).0.workers
                ≡ some (keep_running closing w) =
              ground (
                arith,
                found,
                idle,
                refused,
                lookup-assign ws ws (keep_running closing w) s.manager.workers,
              ) in
            let stalled : IsStalled path w.status.queued_paths (keep_running closing w) = record {
              waits = pending;
              idle = idle;
              unstopped = refl;
              unscheduled = refl;
              shown = refl;
            } in
            let after =
              Rests-Stalled options path w.status.queued_paths ws rests
                (Reach.next reach (stops ws closing refl))
                (subst (Stalled path w.status.queued_paths) (sym now) stalled) in
            ((keep_running closing w, now, refl), Stalled-worker path _ _ after.1)
      ]
    ]

Serves-Reach : {s t : System} → Serves s t → Reach s t
Serves-Reach Serves.here = Reach.here
Serves-Reach (Serves.next r step a) = Reach.next (Serves-Reach r) step

add_path_waits : (path : Str) (w : Worker) → Inv w → In path (add_path path w).pending
unfolding add_path
add_path_waits path w v =
    if_ind (λ (u : Worker). In path u.pending) (mem path w.pending_set)
      (λ old. (v.same_set path).0 (mem→In path w.pending_set old))
      (λ _. In-append_right path w.pending (path ∷ []) (inl refl))

-- `Enqueue` whose first event is good and that refuses another one leaves a worker that neither publishes nor stops and
-- has no timer stalled, with a status that shows no path. That holds in every run in which the manager refused nothing
-- before, and lasts in every run after it in which `Enqueue` refuses its events for the workspace, `Stop` does not
-- succeed for it, and only a timer that its worker has set publishes for it.
pub enqueue_stalls :
    (options : List ManagerOption) {s t : System} (ws good path : Str) (events : List Str)
    (w : Worker) (fault : Fault)
    → Serves (initial options) s
    → lookup ws s.manager.workers ≡ some w
    → w.publishing ≡ false
    → w.stopping ≡ false
    → w.timer ≡ none
    → normalize_event_path ws good ≡ ok path
    → (enqueue s.manager ws (good ∷ events)).1 ≡ some fault
    → Rests ws (record s { manager = (enqueue s.manager ws (good ∷ events)).0 }) t
    → (u : Worker) × (lookup ws t.manager.workers ≡ some u) × IsStalled path [] u
unfolding enqueue add_events
enqueue_stalls options {s} {t} ws good path events w fault serves found idle unstopped unscheduled
      fine refused rests =
    let reach = Serves-Reach serves in
    let awake = Serves-IsAwake options ws serves found in
    let sound = subst (λ o. Sound o (lookup ws s.running)) found (Reach-IsSound options reach ws) in
    let nothing_queued : w.status.queued_paths ≡ [] = elim (List-cases w.pending) [
      | inl e ↦ awake.shown ∙ e
      | inr (c, cs, e) ↦
          absurd (awake.scheduled (λ n. absurd (cons_empty e n)) idle unstopped unscheduled)
    ] in
    let (a, b, c, _, d) = add_path_frame path w in
    let one : IsStalled path [] (add_path path w) = record {
      waits = add_path_waits path w sound.0;
      idle = b ∙ idle;
      unstopped = a ∙ unstopped;
      unscheduled = c ∙ unscheduled;
      shown = ap (λ x. x.queued_paths) d ∙ nothing_queued;
    } in
    let u = (enqueue_worker s.manager.throttle ws w (good ∷ events)).0 in
    let now : lookup ws (enqueue s.manager ws (good ∷ events)).0.workers ≡ some u =
      ground (arith, found, lookup-assign ws ws u s.manager.workers) in
    let loud : (enqueue_worker s.manager.throttle ws w (good ∷ events)).1 ≢ none = λ n.
      absurd (ground (arith, n, refused, enqueue_accepts s.manager ws (good ∷ events) w found n)) in
    let same : (add_events ws (add_path path w) events).0 ≡ u = sym (
      enqueue_worker-refused s.manager.throttle ws w (good ∷ events) unstopped loud
      ∙ ground (arith, fine)) in
    let stalled =
      subst (IsStalled path []) same
        (add_events-IsStalled ws path [] (add_path path w) events one) in
    let after =
      Rests-Stalled options path [] ws rests (Reach.next reach (enqueues ws (good ∷ events) refl))
        (subst (Stalled path []) (sym now) stalled) in
    Stalled-worker path [] _ after.1
  where
    cons_empty : {c : Str} {cs : List Str} → w.pending ≡ c ∷ cs → w.pending ≡ [] → ⊥
    cons_empty e n = ground (arith, e, n)
