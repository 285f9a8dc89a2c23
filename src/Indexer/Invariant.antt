-- ===== src/Indexer/Invariant.antt =====
-- indexer/queue.go and indexer/lifecycle.go: what holds of a worker between two operations.
use agent_graph.Prelude.{
  Str, List, [], ◌∷◌, ◌++◌, Option, none, some, true, false, ◌≡◌, ◌≢◌, ◌↔◌, refl, arith, mem, In,
  Distinct, inl, inr, ◌∙◌, ◌||◌, is_empty, str_eq, not-mem→not-In, Result-cases, Bool-cases,
}
use agent_graph.Prelude.Int.{ℤ}
use agent_graph.Indexer.Types.{Worker, Manager, Fault}
use agent_graph.Indexer.EventPath.{normalize_event_path}
use agent_graph.Indexer.Queue.{
  add_path, add_events, schedule_pending, show_pending, enqueue_worker, begin_publish_worker,
  finish_publish_worker, reschedule, end_enqueue,
}
use agent_graph.Indexer.Unique.{Distinct-snoc, In-snoc, unique_paths_lem}
use agent_graph.Indexer.Lifecycle.{halt}

-- The set and the list of pending paths agree; a timer is set only for pending paths of a worker that is
-- neither publishing nor stopping.
pub record Inv (w : Worker) : Type 0 where
  pub distinct : Distinct w.pending
  pub same_set : (p : Str) → In p w.pending_set ↔ In p w.pending
  pub timer_pending : w.timer ≢ none → w.pending ≢ []
  pub timer_idle : w.timer ≢ none → (w.publishing ≡ false) × (w.stopping ≡ false)

snoc_filled : {A : Type 0} (xs : List A) (x : A) → xs ++ x ∷ [] ≢ []
snoc_filled [] x e = cc
snoc_filled (y ∷ ys) x e = cc

add_path-Inv : (path : Str) (w : Worker) → Inv w → Inv (add_path path w)
unfolding add_path
add_path-Inv path w v = elim (Bool-cases (mem path w.pending_set)) [
  | inl old ↦ rw old v
  | inr new ↦
      let absent : ¬ In path w.pending =
        λ i. not-mem→not-In path w.pending_set new ((v.same_set path).1 i) in
      rw new (record {
        distinct = Distinct-snoc w.pending path v.distinct absent;
        same_set = λ p.
            let e = In-snoc p path w.pending in
            let s = v.same_set p in
            (λ i. ground (arith, e.1, s.0, i), λ i. ground (arith, e.0 i, s.1));
        timer_pending = λ t. snoc_filled w.pending path;
        timer_idle = v.timer_idle;
      })
]

add_events-Inv :
    (ws : Str) (w : Worker) (events : List Str) → Inv w → Inv (add_events ws w events).0
unfolding add_events
add_events-Inv ws w [] v = v
add_events-Inv ws w (event ∷ events) v = elim (Result-cases (normalize_event_path ws event)) [
  | inl (path, e) ↦
      rw (e, add_events) (add_events-Inv ws (add_path path w) events (add_path-Inv path w v))
  | inr (fault, e) ↦ rw (e, add_events) v
]

-- Only pending paths change while events are added.
pub add_path_frame :
    (path : Str) (w : Worker)
    → ((add_path path w).stopping ≡ w.stopping)
      × ((add_path path w).publishing ≡ w.publishing)
      × ((add_path path w).timer ≡ w.timer)
      × ((add_path path w).retry_delay ≡ w.retry_delay)
      × ((add_path path w).status ≡ w.status)
unfolding add_path
add_path_frame path w = ground arith

pub add_events_frame :
    (ws : Str) (w : Worker) (events : List Str)
    → ((add_events ws w events).0.stopping ≡ w.stopping)
      × ((add_events ws w events).0.publishing ≡ w.publishing)
      × ((add_events ws w events).0.timer ≡ w.timer)
      × ((add_events ws w events).0.retry_delay ≡ w.retry_delay)
      × ((add_events ws w events).0.status ≡ w.status)
unfolding add_events
add_events_frame ws w [] = (refl, refl, refl, refl, refl)
add_events_frame ws w (event ∷ events) = elim (Result-cases (normalize_event_path ws event)) [
  | inl (path, e) ↦
      rw (e, add_events)
        (ground (arith, add_events_frame ws (add_path path w) events, add_path_frame path w))
  | inr (fault, e) ↦ rw (e, add_events) (refl, refl, refl, refl, refl)
]

schedule_pending-Inv :
    (delay : ℤ) (w : Worker)
    → w.stopping ≡ false
    → Inv w
    → Inv (schedule_pending delay (show_pending w))
unfolding schedule_pending
schedule_pending-Inv delay w s v = record {
  distinct = ground (arith, v.distinct);
  same_set = λ p. ground (arith, v.same_set p);
  timer_pending = λ t. ground (arith, v.timer_pending);
  timer_idle = λ t. ground (arith, v.timer_idle);
}

pub enqueue_worker-Inv :
    (throttle : ℤ) (ws : Str) (w : Worker) (events : List Str)
    → Inv w
    → Inv (enqueue_worker throttle ws w events).0
unfolding enqueue_worker
enqueue_worker-Inv throttle ws w events v = elim (Bool-cases w.stopping) [
  | inl s ↦ simp s v
  | inr s ↦ simp s (
      ended (add_events ws w events) (add_events-Inv ws w events v)
        ((add_events_frame ws w events).0 ∙ s))
]
  where
    ended :
        (r : Worker × Option Fault)
        → Inv r.0
        → r.0.stopping ≡ false
        → Inv (end_enqueue throttle r).0
    ended (w', some fault) v' s' = v'
    ended (w', none) v' s' = schedule_pending-Inv throttle w' s' v'

pub begin_publish_worker-Inv : (w : Worker) → Inv w → Inv (begin_publish_worker w).0
unfolding begin_publish_worker
begin_publish_worker-Inv w v =
    elim (Bool-cases (w.stopping || w.publishing || is_empty w.pending)) [
      | inl t ↦ rw t v
      | inr f ↦ rw f (record {
        distinct = tt;
        same_set = λ p. (λ i. i, λ i. i);
        timer_pending = λ t. absurd (t refl);
        timer_idle = λ t. absurd (t refl);
      })
    ]

reschedule-Inv : (delay : ℤ) (w : Worker) → w.publishing ≡ false → Inv w → Inv (reschedule delay w)
reschedule-Inv delay w p v = record {
  distinct = ground (arith, v.distinct);
  same_set = λ q. ground (arith, v.same_set q);
  timer_pending = λ t. ground (arith, v.timer_pending);
  timer_idle = λ t. ground (arith, v.timer_idle);
}

-- Between the two parts of `publish` no timer is set, so a finished publication may set one.
pub finish_publish_worker-Inv :
    (m : Manager) (paths : List Str) (error : Option Str) (w : Worker)
    → w.publishing ≡ true
    → Inv w
    → Inv (finish_publish_worker m paths error w)
unfolding finish_publish_worker
finish_publish_worker-Inv m paths none w p v = reschedule-Inv _ _ refl (record {
  distinct = v.distinct;
  same_set = v.same_set;
  timer_pending = v.timer_pending;
  timer_idle = λ t. (refl, (v.timer_idle t).1);
})
finish_publish_worker-Inv m paths (some e) w p v = reschedule-Inv _ _ refl (record {
  distinct = (unique_paths_lem (paths ++ w.pending)).0;
  same_set = λ q. (λ i. i, λ i. i);
  timer_pending = λ t. ground (arith, v.timer_idle t);
  timer_idle = λ t. ground (arith, v.timer_idle t);
})

pub halt-Inv : (w : Worker) → Inv w → Inv (halt w)
halt-Inv w v = record {
  distinct = v.distinct;
  same_set = v.same_set;
  timer_pending = λ t. absurd (t refl);
  timer_idle = λ t. absurd (t refl);
}
