-- ===== src/Indexer/Wakeup.antt =====
-- indexer/queue.go: pending paths of a worker at rest have a timer that will publish them.
use agent_graph.Prelude.{
  Str, List, [], Option, none, some, Bool, true, false, ◌≡◌, ◌≢◌, refl, sym, arith, lookup, str_eq,
  Str-discrete, if◌then◌else◌, ◌==◌, ◌⊎◌, inl, inr, subst, is_empty, ◌||◌, not, if_ind,
}
use agent_graph.Prelude.Int.{ℤ}
use agent_graph.Indexer.Types.{Worker, Manager, Fault, Owner}
use agent_graph.Indexer.Queue.{
  enqueue, enqueue_worker, begin_publish_worker, add_events, finish_publish_worker, call_publisher,
  schedule_pending, end_enqueue, show_pending, settle, reschedule,
}
use agent_graph.Indexer.Lifecycle.{closes, ManagerOption, new_manager, default_manager}
use agent_graph.Indexer.Workers.{
  map_worker, stop_found, start_found, lookup-enqueue, lookup-begin_publish, lookup-finish_publish,
  lookup-stop_round, lookup-touch, lookup-start, lookup-begin_reconcile, lookup-finish_reconcile,
}
use agent_graph.Indexer.Runs.{
  System, Step, starts, touches, enqueues, begins, finishes, stops, reconciles, reconciled,
}
use agent_graph.Indexer.Soundness.{initial, workers-apply_options}

-- The status shows the pending paths, and a worker at rest with pending paths has a timer.
pub record IsAwake (w : Worker) : Type 0 where
  pub shown : w.status.queued_paths ≡ w.pending
  pub scheduled : w.pending ≢ [] → w.publishing ≡ false → w.stopping ≡ false → w.timer ≢ none

abbrev pub Awake : Option Worker → Type 0
Awake none = Unit
Awake (some w) = IsAwake w

schedule_pending-IsAwake :
    (delay : ℤ) (w : Worker) → IsAwake (schedule_pending delay (show_pending w))
unfolding schedule_pending
schedule_pending-IsAwake delay w = record {
  shown = ground arith;
  scheduled = λ a b c. ground (arith, a);
}

-- Every `Enqueue` that accepts its events leaves the worker awake, whatever it was before.
enqueue_worker-IsAwake :
    (throttle : ℤ) (ws : Str) (w : Worker) (events : List Str)
    → (enqueue_worker throttle ws w events).1 ≡ none
    → IsAwake (enqueue_worker throttle ws w events).0
unfolding enqueue_worker
enqueue_worker-IsAwake throttle ws w events h =
    if_ind (λ (r : Worker × Option Fault). r.1 ≡ none → IsAwake r.0) w.stopping (λ _ e. cc)
      (λ _ e. ended (add_events ws w events) e) h
  where
    ended :
        (r : Worker × Option Fault)
        → (end_enqueue throttle r).1 ≡ none
        → IsAwake (end_enqueue throttle r).0
    ended (w', some fault) e = cc
    ended (w', none) e = schedule_pending-IsAwake throttle w'

begin_publish_worker-IsAwake : (w : Worker) → IsAwake w → IsAwake (begin_publish_worker w).0
unfolding begin_publish_worker
begin_publish_worker-IsAwake w a =
    if_ind (λ (r : Worker × Option (List Str)). IsAwake r.0)
      (w.stopping || w.publishing || is_empty w.pending) (λ _. a)
      (λ _. record { shown = refl; scheduled = λ f p s. absurd (f refl) })

reschedule-IsAwake :
    (delay : ℤ) (w : Worker) → w.status.queued_paths ≡ w.pending → IsAwake (reschedule delay w)
reschedule-IsAwake delay w q = record {
  shown = ground (arith, q);
  scheduled = λ a b c. ground (arith, a);
}

finish_publish_worker-IsAwake :
    (m : Manager) (paths : List Str) (error : Option Str) (w : Worker)
    → IsAwake w
    → IsAwake (finish_publish_worker m paths error w)
unfolding finish_publish_worker
finish_publish_worker-IsAwake m paths none w a = reschedule-IsAwake _ _ a.shown
finish_publish_worker-IsAwake m paths (some e) w a =
    let settled = settle m paths (some e) (record w { publishing = false }) in
    reschedule-IsAwake settled.retry_delay (record settled { publish_done = some true }) refl

abbrev pub Calm : System → Type 0
Calm s = (ws : Str) → Awake (lookup ws s.manager.workers)

-- The steps in which the manager refuses nothing: no event path is refused, and no lock file fails to
-- close. A call for a workspace that is not running changes nothing and counts among them.
abbrev pub Accepted : {s t : System} → Step s t → Type 0
Accepted {s} (enqueues ws events e) =
    ((enqueue s.manager ws events).1 ≡ none) ⊎ ((enqueue s.manager ws events).0 ≡ s.manager)
Accepted (stops ws closing e) = closing ≡ closes
Accepted _ = Unit {0}

calm_elsewhere :
    (ws : Str) (before after : List (Str × Worker)) (f : Option Worker)
    → ((other : Str) → lookup other after ≡ (if ws == other then f else lookup other before))
    → ((other : Str) → Awake (lookup other before))
    → Awake f
    → (other : Str) → Awake (lookup other after)
calm_elsewhere ws before after f a calm kept other = elim (Str-discrete ws other) [
  | yes e ↦ rw (a other) (ground (arith, kept))
  | no n ↦ rw (a other) (ground (arith, calm other))
]

Awake-map :
    (f : Worker → Worker) (o : Option Worker)
    → ((w : Worker) → IsAwake w → IsAwake (f w))
    → Awake o
    → Awake (map_worker f o)
Awake-map f none h a = tt
Awake-map f (some w) h a = h w a

Awake-stop : (o : Option Worker) → Awake o → Awake (stop_found closes o)
Awake-stop none a = tt
Awake-stop (some w) a =
    if_ind Awake w.publishing
      (λ _. record { shown = a.shown; scheduled = λ f p s. absurd (true≢false s) }) (λ _. tt)
  where
    true≢false : ◌≡◌ {A = Bool} true false → ⊥
    true≢false e = cc

Awake-start :
    (m : Manager) (ws : Str) (now : ℤ) (acquired : Option Owner) (o : Option Worker)
    → Awake o
    → Awake (start_found m ws now acquired o)
Awake-start m ws now acquired (some w) a = record { shown = a.shown; scheduled = a.scheduled }
Awake-start m ws now none none a = tt
Awake-start m ws now (some owner) none a =
    if_ind (λ w. Awake (some w)) m.has_reconciler
      (λ _. record { shown = refl; scheduled = λ f p s. absurd (f refl) })
      (λ _. record { shown = refl; scheduled = λ f p s. absurd (f refl) })

enqueue-Awake :
    (m : Manager) (ws : Str) (events : List Str) (o : Option Worker)
    → lookup ws m.workers ≡ o
    → (enqueue m ws events).1 ≡ none
    → Awake (map_worker (λ w. (enqueue_worker m.throttle ws w events).0) o)
unfolding enqueue
enqueue-Awake m ws events none e h = tt
enqueue-Awake m ws events (some w) e h =
    enqueue_worker-IsAwake m.throttle ws w events (ground (arith, e, h))

pub Step-Calm : {s t : System} (step : Step s t) → Accepted step → Calm s → Calm t
Step-Calm {s} (starts ws now acquired e) a h = subst Calm (sym e) (
    calm_elsewhere ws _ _ _ (λ other. lookup-start s.manager ws other now acquired) h
      (Awake-start s.manager ws now acquired _ (h ws)))
Step-Calm {s} (touches ws now e) a h = subst Calm (sym e) (
    calm_elsewhere ws _ _ _ (λ other. lookup-touch s.manager ws other now) h
      (Awake-map _ _ (λ w b. record { shown = b.shown; scheduled = b.scheduled }) (h ws)))
Step-Calm {s} (enqueues ws events e) (inl fine) h = subst Calm (sym e) (
    calm_elsewhere ws _ _ _ (λ other. lookup-enqueue s.manager ws other events) h
      (enqueue-Awake s.manager ws events _ refl fine))
Step-Calm {s} (enqueues ws events e) (inr unchanged) h =
    subst Calm (sym e) (λ other. rw unchanged (h other))
Step-Calm {s} (begins ws e) a h = subst Calm (sym e) (
    calm_elsewhere ws _ _ _ (λ other. lookup-begin_publish s.manager ws other) h
      (Awake-map _ _ begin_publish_worker-IsAwake (h ws)))
Step-Calm {s} (finishes ws paths outcome found e) a h = subst Calm (sym e) (
    calm_elsewhere ws _ _ _ (λ other. lookup-finish_publish s.manager ws other paths outcome) h
      (Awake-map _ _ (finish_publish_worker-IsAwake s.manager paths (call_publisher outcome))
        (h ws)))
Step-Calm {s} (stops ws closing e) a h = subst Calm (sym e) (
    calm_elsewhere ws _ _ _ (λ other. lookup-stop_round s.manager ws other closing) h
      (rw a (Awake-stop _ (h ws))))
Step-Calm {s} (reconciles ws e) a h = subst Calm (sym e) (
    calm_elsewhere ws _ _ _ (λ other. lookup-begin_reconcile s.manager ws other) h
      (Awake-map _ _
        (λ w b.
          if_ind IsAwake (w.stopping || not s.manager.has_reconciler) (λ _. b)
            (λ _. record { shown = b.shown; scheduled = b.scheduled }))
        (h ws)))
Step-Calm {s} (reconciled ws none e) a h = subst Calm (sym e) (
    calm_elsewhere ws _ _ _ (λ other. lookup-finish_reconcile s.manager ws other none) h
      (Awake-map _ _
        (λ w b.
          if_ind IsAwake w.stopping (λ _. b)
            (λ _. record { shown = b.shown; scheduled = b.scheduled }))
        (h ws)))
Step-Calm {s} (reconciled ws (some error) e) a h = subst Calm (sym e) (
    calm_elsewhere ws _ _ _ (λ other. lookup-finish_reconcile s.manager ws other (some error)) h
      (Awake-map _ _
        (λ w b.
          if_ind IsAwake w.stopping (λ _. b)
            (λ _. record { shown = b.shown; scheduled = b.scheduled }))
        (h ws)))

-- Runs of accepted steps.
pub data Serves (s : System) : System → Type 0 where
  here : Serves s s
  next : {t u : System} → Serves s t → (step : Step t u) → Accepted step → Serves s u

Serves-keeps : {s t : System} → Serves s t → Calm s → Calm t
Serves-keeps here h = h
Serves-keeps (next r step a) h = Step-Calm step a (Serves-keeps r h)

-- No wake-up is lost: in every run in which the manager refuses nothing, the status of a worker shows its
-- pending paths, and a worker that has some, and neither publishes nor stops, has a timer set.
pub Serves-IsAwake :
    (options : List ManagerOption) {s : System} (ws : Str) {w : Worker}
    → Serves (initial options) s
    → lookup ws s.manager.workers ≡ some w
    → IsAwake w
unfolding new_manager
Serves-IsAwake options {s} ws {w} r found =
    subst Awake found
      (Serves-keeps r (λ other. rw (workers-apply_options options default_manager) tt) ws)
