-- ===== src/Indexer/Operations.antt =====
-- indexer/: each operation keeps the soundness of the workspace that it is called for.
use agent_graph.Prelude.{
  Str, List, Option, none, some, true, false, ◌≡◌, refl, sym, arith, lookup, is_some, str_eq,
  lookup-assign, Option-cases, Bool-cases, if◌then◌else◌, ◌==◌, ◌⊎◌, inl, inr, ◌∙◌, is_empty, ◌||◌,
  not, if_ind,
}
use agent_graph.Prelude.Int.{ℤ}
use agent_graph.Indexer.Types.{Status, Worker, Manager, Fault, Owner}
use agent_graph.Indexer.Queue.{
  begin_publish, enqueue_worker, begin_publish_worker, add_events, finish_publish_worker,
  schedule_pending, end_enqueue,
}
use agent_graph.Indexer.Lifecycle.{Closing, close, keep_running, initial_status, new_worker}
use agent_graph.Indexer.Invariant.{
  Inv, begin_publish_worker-Inv, finish_publish_worker-Inv, halt-Inv, add_events_frame,
}
use agent_graph.Indexer.Workers.{
  map_worker, stop_found, start_found, begin_reconcile_worker, finish_reconcile_worker,
}
use agent_graph.Indexer.Runs.{run_batch, Sound}

-- A timer for reconciliation and a status change nothing that the invariant reads.
pub Inv-shown :
    (w : Worker) (status : Status) (timer : Option ℤ)
    → Inv w
    → Inv (record w { status = status; reconcile_timer = timer })
Inv-shown w status timer v = record {
  distinct = v.distinct;
  same_set = v.same_set;
  timer_pending = v.timer_pending;
  timer_idle = v.timer_idle;
}

-- What an operation that runs no publication asks: it keeps the invariant and `publishing`.
pub Sound-map :
    (f : Worker → Worker) (o : Option Worker) (r : Option (List Str))
    → ((w : Worker) → Inv w → Inv (f w) × ((f w).publishing ≡ w.publishing))
    → Sound o r
    → Sound (map_worker f o) r
Sound-map f none r h s = s
Sound-map f (some w) r h s = let (v, p) = h w s.0 in (v, p ∙ s.1)

pub publishing-enqueue_worker :
    (throttle : ℤ) (ws : Str) (w : Worker) (events : List Str)
    → (enqueue_worker throttle ws w events).0.publishing ≡ w.publishing
unfolding enqueue_worker
publishing-enqueue_worker throttle ws w events = elim (Bool-cases w.stopping) [
  | inl s ↦ simp s
  | inr s ↦ simp s (ended (add_events ws w events) (add_events_frame ws w events).1)
]
  where
    ended :
        (r : Worker × Option Fault)
        → r.0.publishing ≡ w.publishing
        → (end_enqueue throttle r).0.publishing ≡ w.publishing
    ended (w', some fault) e = e
    ended (w', none) e = unfold schedule_pending in ground (arith, e)

absent : (r : Option (List Str)) → false ≡ is_some r → r ≡ none
absent none h = refl
absent (some paths) h = cc

pub Sound-stop :
    (closing : Closing) (o : Option Worker) (r : Option (List Str))
    → Sound o r
    → Sound (stop_found closing o) r
Sound-stop closing none r s = s
Sound-stop closing (some w) r s =
    if_ind (λ o. Sound o r) w.publishing (λ p. (halt-Inv w s.0, s.1))
      (λ p.
        if_ind (λ o. Sound o r) (close closing w.owner).1 (λ _. absent r (sym p ∙ s.1))
          (λ _. (unhalted, s.1)))
  where
    unhalted : Inv (keep_running closing w)
    unhalted = record {
      distinct = s.0.distinct;
      same_set = s.0.same_set;
      timer_pending = λ t. absurd (t refl);
      timer_idle = λ t. absurd (t refl);
    }

pub Sound-start :
    (m : Manager) (ws : Str) (now : ℤ) (acquired : Option Owner) (o : Option Worker)
    (r : Option (List Str))
    → Sound o r
    → Sound (start_found m ws now acquired o) r
Sound-start m ws now acquired (some w) r s = (Inv-shown _ _ _ s.0, s.1)
Sound-start m ws now none none r s = s
Sound-start m ws now (some owner) none r s =
    if_ind (λ w. Sound (some w) r) m.has_reconciler (λ _. (fresh (some m.reconcile), rw s))
      (λ _. (fresh none, rw s))
  where
    fresh :
        (timer : Option ℤ)
        → Inv (record (new_worker owner (initial_status m.idle now ws owner)) {
          reconcile_timer = timer;
        })
    fresh timer = record {
      distinct = tt;
      same_set = λ p. (λ i. i, λ i. i);
      timer_pending = λ t. absurd (t refl);
      timer_idle = λ t. absurd (t refl);
    }

pub Sound-begin_reconcile :
    (m : Manager) (w : Worker)
    → Inv w
    → Inv (begin_reconcile_worker m w) × ((begin_reconcile_worker m w).publishing ≡ w.publishing)
Sound-begin_reconcile m w v =
    if_ind (λ u. Inv u × (u.publishing ≡ w.publishing)) (w.stopping || not m.has_reconciler)
      (λ _. (v, refl)) (λ _. (Inv-shown _ _ _ v, refl))

pub Sound-finish_reconcile :
    (m : Manager) (error : Option Str) (w : Worker)
    → Inv w
    → Inv (finish_reconcile_worker m error w)
      × ((finish_reconcile_worker m error w).publishing ≡ w.publishing)
Sound-finish_reconcile m none w v =
    if_ind (λ u. Inv u × (u.publishing ≡ w.publishing)) w.stopping (λ _. (v, refl))
      (λ _. (Inv-shown _ _ _ v, refl))
Sound-finish_reconcile m (some error) w v =
    if_ind (λ u. Inv u × (u.publishing ≡ w.publishing)) w.stopping (λ _. (v, refl))
      (λ _. (Inv-shown _ _ _ v, refl))

abbrev pub taken : Option (List Str) → Option (List Str) → Option (List Str)
taken none r = r
taken (some paths) r = some paths

abbrev pub batch_of : Option Worker → Option (List Str) → Option (List Str)
batch_of none r = r
batch_of (some w) r = taken (begin_publish_worker w).1 r

pub lookup-run_batch :
    (m : Manager) (ws other : Str) (running : List (Str × List Str))
    → lookup other (run_batch (begin_publish m ws).1 running) ≡ (
        if ws == other
        then batch_of (lookup ws m.workers) (lookup ws running)
        else lookup other running)
unfolding begin_publish
lookup-run_batch m ws other running = elim (Option-cases (lookup ws m.workers)) [
  | inl e ↦ ground (arith, e)
  | inr (w, e) ↦ elim (Option-cases (begin_publish_worker w).1) [
    | inl f ↦ ground (arith, e, f)
    | inr (paths, f) ↦ ground (arith, e, f, lookup-assign ws other paths running)
  ]
]

-- `publish` either finds no work and changes nothing, or marks the worker and takes its paths.
pub begin_publish_worker_cases :
    (w : Worker)
    → (((begin_publish_worker w).0 ≡ w) × ((begin_publish_worker w).1 ≡ none))
      ⊎ ((w.publishing ≡ false)
          × ((begin_publish_worker w).0.publishing ≡ true)
          × ((begin_publish_worker w).1 ≡ some w.pending))
unfolding begin_publish_worker
begin_publish_worker_cases w =
    elim (Bool-cases (w.stopping || w.publishing || is_empty w.pending)) [
      | inl t ↦ inl (simp t, simp t)
      | inr f ↦ inr (ground arith, simp f, simp f)
    ]

pub Sound-begin :
    (o : Option Worker) (r : Option (List Str))
    → Sound o r
    → Sound (map_worker (λ w. (begin_publish_worker w).0) o) (batch_of o r)
Sound-begin none r s = s
Sound-begin (some w) r s = elim (begin_publish_worker_cases w) [
  | inl (same, nothing) ↦ (begin_publish_worker-Inv w s.0, ground (arith, same, nothing, s.1))
  | inr (idle, busy, paths) ↦ (begin_publish_worker-Inv w s.0, ground (arith, busy, paths))
]

publishing-finish_publish_worker :
    (m : Manager) (paths : List Str) (error : Option Str) (w : Worker)
    → (finish_publish_worker m paths error w).publishing ≡ false
unfolding finish_publish_worker
publishing-finish_publish_worker m paths none w = ground arith
publishing-finish_publish_worker m paths (some e) w = ground arith

pub Sound-finish :
    (m : Manager) (paths : List Str) (error : Option Str) (o : Option Worker)
    → Sound o (some paths)
    → Sound (map_worker (finish_publish_worker m paths error) o) none
Sound-finish m paths error none s = refl
Sound-finish m paths error (some w) s = (
  finish_publish_worker-Inv m paths error w s.1 s.0,
  publishing-finish_publish_worker m paths error w,
)
