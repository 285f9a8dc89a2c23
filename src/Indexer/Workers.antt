-- ===== src/Indexer/Workers.antt =====
-- indexer/: what each operation of the manager does to the worker of each workspace.
use agent_graph.Prelude.{
  Str, List, Option, none, some, ◌≡◌, arith, lookup, str_eq, lookup-assign, lookup-delete,
  Option-cases, if◌then◌else◌, ◌==◌, not, ◌||◌, inl, inr,
}
use agent_graph.Prelude.Int.{ℤ}
use agent_graph.Indexer.Types.{Worker, Manager, Owner}
use agent_graph.Indexer.Queue.{
  enqueue, begin_publish, finish_publish, begin_reconcile, finish_reconcile, Outcome,
  enqueue_worker, begin_publish_worker, finish_publish_worker, call_publisher,
  schedule_reconciliation, show_error,
}
use agent_graph.Indexer.Lifecycle.{
  start, touch, Closing, close, keep_running, stop_round, halt, touch_status, initial_status,
  new_worker,
}

abbrev pub map_worker : (Worker → Worker) → Option Worker → Option Worker
map_worker f none = none
map_worker f (some w) = some (f w)

abbrev pub stop_worker : Closing → Worker → Option Worker
stop_worker closing w =
    if w.publishing
    then some (halt w)
    else if (close closing w.owner).1
    then none
    else some (keep_running closing w)

abbrev pub stop_found : Closing → Option Worker → Option Worker
stop_found closing none = none
stop_found closing (some w) = stop_worker closing w

abbrev pub start_found : Manager → Str → ℤ → Option Owner → Option Worker → Option Worker
start_found m ws now acquired (some w) =
    some (record w { status = touch_status m.idle now w.status })
start_found m ws now none none = none
start_found m ws now (some owner) none =
    let w = new_worker owner (initial_status m.idle now ws owner) in
    some (if m.has_reconciler then schedule_reconciliation m w else w)

abbrev pub begin_reconcile_worker : Manager → Worker → Worker
begin_reconcile_worker m w =
    if w.stopping || not m.has_reconciler then w else record w { reconcile_timer = none }

abbrev pub finish_reconcile_worker : Manager → Option Str → Worker → Worker
finish_reconcile_worker m error w =
    if w.stopping then w else schedule_reconciliation m (show_error error w)

module _ (m : Manager) (ws other : Str) where
  pub lookup-enqueue :
      (events : List Str)
      → lookup other (enqueue m ws events).0.workers ≡ (
          if ws == other
          then map_worker (λ w. (enqueue_worker m.throttle ws w events).0) (lookup ws m.workers)
          else lookup other m.workers)
  unfolding enqueue
  lookup-enqueue events = elim (Option-cases (lookup ws m.workers)) [
    | inl e ↦ ground (arith, e)
    | inr (w, e) ↦
        ground
          (arith, e, lookup-assign ws other (enqueue_worker m.throttle ws w events).0 m.workers)
  ]

  pub lookup-begin_publish : lookup other (begin_publish m ws).0.workers ≡ (
      if ws == other
      then map_worker (λ w. (begin_publish_worker w).0) (lookup ws m.workers)
      else lookup other m.workers)
  unfolding begin_publish
  lookup-begin_publish = elim (Option-cases (lookup ws m.workers)) [
    | inl e ↦ ground (arith, e)
    | inr (w, e) ↦ ground (arith, e, lookup-assign ws other (begin_publish_worker w).0 m.workers)
  ]

  pub lookup-finish_publish :
      (paths : List Str) (outcome : Outcome)
      → lookup other (finish_publish m ws paths outcome).workers ≡ (
          if ws == other
          then map_worker
              (finish_publish_worker m paths (call_publisher outcome))
              (lookup ws m.workers)
          else lookup other m.workers)
  unfolding finish_publish
  lookup-finish_publish paths outcome = elim (Option-cases (lookup ws m.workers)) [
    | inl e ↦ ground (arith, e)
    | inr (w, e) ↦ ground (
      arith,
      e,
      lookup-assign ws other (finish_publish_worker m paths (call_publisher outcome) w) m.workers,
    )
  ]

  pub lookup-stop_round :
      (closing : Closing)
      → lookup other (stop_round m ws closing).0.workers
        ≡ (if ws == other then stop_found closing (lookup ws m.workers) else lookup other m.workers)
  unfolding stop_round
  lookup-stop_round closing = elim (Option-cases (lookup ws m.workers)) [
    | inl e ↦ ground (arith, e)
    | inr (w, e) ↦ ground (
      arith,
      e,
      lookup-assign ws other (halt w) m.workers,
      lookup-delete ws other m.workers,
      lookup-assign ws other (keep_running closing w) m.workers,
    )
  ]

  pub lookup-touch :
      (now : ℤ)
      → lookup other (touch m ws now).0.workers ≡ (
          if ws == other
          then map_worker
              (λ w. record w { status = touch_status m.idle now w.status })
              (lookup ws m.workers)
          else lookup other m.workers)
  unfolding touch
  lookup-touch now = elim (Option-cases (lookup ws m.workers)) [
    | inl e ↦ ground (arith, e)
    | inr (w, e) ↦ ground (
      arith,
      e,
      lookup-assign ws other (record w { status = touch_status m.idle now w.status }) m.workers,
    )
  ]

  pub lookup-start :
      (now : ℤ) (acquired : Option Owner)
      → lookup other (start m ws now acquired).0.workers ≡ (
          if ws == other
          then start_found m ws now acquired (lookup ws m.workers)
          else lookup other m.workers)
  unfolding start
  lookup-start now none = elim (Option-cases (lookup ws m.workers)) [
    | inl e ↦ ground (arith, e)
    | inr (w, e) ↦ ground (
      arith,
      e,
      lookup-assign ws other (record w { status = touch_status m.idle now w.status }) m.workers,
    )
  ]
  lookup-start now (some owner) = elim (Option-cases (lookup ws m.workers)) [
    | inl e ↦
        let w = new_worker owner (initial_status m.idle now ws owner) in
        ground (
          arith,
          e,
          lookup-assign ws other (if m.has_reconciler then schedule_reconciliation m w else w)
              m.workers,
        )
    | inr (w, e) ↦ ground (
      arith,
      e,
      lookup-assign ws other (record w { status = touch_status m.idle now w.status }) m.workers,
    )
  ]

  pub lookup-begin_reconcile : lookup other (begin_reconcile m ws).0.workers ≡ (
      if ws == other
      then map_worker (begin_reconcile_worker m) (lookup ws m.workers)
      else lookup other m.workers)
  unfolding begin_reconcile
  lookup-begin_reconcile = elim (Option-cases (lookup ws m.workers)) [
    | inl e ↦ ground (arith, e)
    | inr (w, e) ↦
        ground (arith, e, lookup-assign ws other (record w { reconcile_timer = none }) m.workers)
  ]

  pub lookup-finish_reconcile :
      (error : Option Str)
      → lookup other (finish_reconcile m ws error).workers ≡ (
          if ws == other
          then map_worker (finish_reconcile_worker m error) (lookup ws m.workers)
          else lookup other m.workers)
  unfolding finish_reconcile
  lookup-finish_reconcile error = elim (Option-cases (lookup ws m.workers)) [
    | inl e ↦ ground (arith, e)
    | inr (w, e) ↦ ground (
      arith,
      e,
      lookup-assign ws other (schedule_reconciliation m (show_error error w)) m.workers,
    )
  ]
