-- ===== src/Indexer/Soundness.antt =====
-- indexer/: every step of the manager keeps its workers sound.
use agent_graph.Prelude.{
  Str, List, [], ◌∷◌, Option, none, some, true, ◌≡◌, refl, sym, arith, lookup, str_eq, Str-discrete,
  lookup-delete, Option-cases, if◌then◌else◌, ◌==◌, inl, inr, ◌∙◌, subst,
}
use agent_graph.Indexer.Types.{Worker, Manager}
use agent_graph.Indexer.Queue.{begin_publish, begin_publish_worker, call_publisher}
use agent_graph.Indexer.Lifecycle.{
  Closing, ManagerOption, with_publish_throttle, with_idle_timeout, with_reconciliation_interval,
  with_retry_backoff, with_reconciler, apply_option, apply_options, new_manager, default_manager,
  waits, stop_round,
}
use agent_graph.Indexer.Invariant.{enqueue_worker-Inv}
use agent_graph.Indexer.Workers.{
  lookup-enqueue, lookup-begin_publish, lookup-finish_publish, lookup-stop_round, lookup-touch,
  lookup-start, lookup-begin_reconcile, lookup-finish_reconcile,
}
use agent_graph.Indexer.Operations.{
  Inv-shown, Sound-map, Sound-start, Sound-stop, Sound-begin, Sound-finish, Sound-begin_reconcile,
  Sound-finish_reconcile, publishing-enqueue_worker, lookup-run_batch,
}
use agent_graph.Indexer.Runs.{
  System, Step, starts, touches, enqueues, begins, finishes, stops, reconciles, reconciled, Reach,
  here, next, Sound, IsSound,
}

-- Soundness is about one workspace at a time: an operation on `ws` need only keep that of `ws`.
local :
    (ws : Str) (before after : List (Str × Worker)) (running running' : List (Str × List Str))
    (f : Option Worker) (g : Option (List Str))
    → ((other : Str) → lookup other after ≡ (if ws == other then f else lookup other before))
    → ((other : Str) → lookup other running' ≡ (if ws == other then g else lookup other running))
    → ((other : Str) → Sound (lookup other before) (lookup other running))
    → Sound f g
    → (other : Str) → Sound (lookup other after) (lookup other running')
local ws before after running running' f g a r sound kept other = elim (Str-discrete ws other) [
  | yes e ↦ rw (a other, r other) (ground (arith, kept))
  | no n ↦ rw (a other, r other) (ground (arith, sound other))
]

pub same :
    (ws : Str) (running : List (Str × List Str)) (other : Str)
    → lookup other running ≡ (if ws == other then lookup ws running else lookup other running)
same ws running other = ground arith

-- Every step keeps every worker sound.
pub Step-IsSound : {s t : System} → Step s t → IsSound s → IsSound t
Step-IsSound {s} {t} (starts ws now acquired e) h = subst IsSound (sym e) (
    local ws _ _ s.running s.running _ _ (λ other. lookup-start s.manager ws other now acquired)
      (same ws s.running) h (Sound-start s.manager ws now acquired _ _ (h ws)))
Step-IsSound {s} {t} (touches ws now e) h = subst IsSound (sym e) (
    local ws _ _ s.running s.running _ _ (λ other. lookup-touch s.manager ws other now)
      (same ws s.running) h (Sound-map _ _ _ (λ w v. (Inv-shown _ _ _ v, refl)) (h ws)))
Step-IsSound {s} {t} (enqueues ws events e) h = subst IsSound (sym e) (
    local ws _ _ s.running s.running _ _ (λ other. lookup-enqueue s.manager ws other events)
      (same ws s.running) h
      (Sound-map _ _ _
        (λ w v. (
          enqueue_worker-Inv s.manager.throttle ws w events v,
          publishing-enqueue_worker s.manager.throttle ws w events,
        ))
        (h ws)))
Step-IsSound {s} {t} (begins ws e) h = subst IsSound (sym e) (
    local ws _ _ s.running _ _ _ (λ other. lookup-begin_publish s.manager ws other)
      (λ other. lookup-run_batch s.manager ws other s.running) h
      (Sound-begin (lookup ws s.manager.workers) (lookup ws s.running) (h ws)))
Step-IsSound {s} {t} (finishes ws paths outcome found e) h = subst IsSound (sym e) (
    local ws _ _ s.running _ _ none
      (λ other. lookup-finish_publish s.manager ws other paths outcome)
      (λ other. lookup-delete ws other s.running) h
      (Sound-finish s.manager paths (call_publisher outcome) (lookup ws s.manager.workers)
        (subst (Sound (lookup ws s.manager.workers)) found (h ws))))
Step-IsSound {s} {t} (stops ws closing e) h = subst IsSound (sym e) (
    local ws _ _ s.running s.running _ _ (λ other. lookup-stop_round s.manager ws other closing)
      (same ws s.running) h (Sound-stop closing _ _ (h ws)))
Step-IsSound {s} {t} (reconciles ws e) h = subst IsSound (sym e) (
    local ws _ _ s.running s.running _ _ (λ other. lookup-begin_reconcile s.manager ws other)
      (same ws s.running) h (Sound-map _ _ _ (Sound-begin_reconcile s.manager) (h ws)))
Step-IsSound {s} {t} (reconciled ws error e) h = subst IsSound (sym e) (
    local ws _ _ s.running s.running _ _ (λ other. lookup-finish_reconcile s.manager ws other error)
      (same ws s.running) h (Sound-map _ _ _ (Sound-finish_reconcile s.manager error) (h ws)))

abbrev pub initial : List ManagerOption → System
initial options = record { manager = new_manager options; running = [] }

workers-apply_option :
    (option : ManagerOption) (m : Manager) → (apply_option option m).workers ≡ m.workers
unfolding apply_option
workers-apply_option (with_publish_throttle d) m = ground arith
workers-apply_option (with_idle_timeout d) m = ground arith
workers-apply_option (with_reconciliation_interval d) m = ground arith
workers-apply_option (with_retry_backoff base maximum) m = ground arith
workers-apply_option (with_reconciler given) m = ground arith

pub workers-apply_options :
    (options : List ManagerOption) (m : Manager) → (apply_options options m).workers ≡ m.workers
unfolding apply_options
workers-apply_options [] m = refl
workers-apply_options (option ∷ options) m =
    workers-apply_options options (apply_option option m) ∙ workers-apply_option option m

pub initial-IsSound : (options : List ManagerOption) → IsSound (initial options)
unfolding new_manager
initial-IsSound options ws = rw (workers-apply_options options default_manager) refl

Reach-keeps : {s t : System} → Reach s t → IsSound s → IsSound t
Reach-keeps here h = h
Reach-keeps (next r step) h = Step-IsSound step (Reach-keeps r h)

-- Whatever the callers, the timers and the publishers do, in whatever order: the pending paths of a
-- worker are distinct and are those of its set, a timer is set only for pending paths of a worker that
-- neither publishes nor stops, and a worker publishes exactly while a publication of its workspace runs.
pub Reach-IsSound :
    (options : List ManagerOption) {s : System} → Reach (initial options) s → IsSound s
Reach-IsSound options r = Reach-keeps r (initial-IsSound options)

-- While a publication of a workspace runs, its worker is there and marked, no second one begins, and
-- `Stop` waits.
pub Reach_one_publication :
    (options : List ManagerOption) {s : System} (ws : Str) {paths : List Str}
    → Reach (initial options) s
    → lookup ws s.running ≡ some paths
    → ((w : Worker) × (lookup ws s.manager.workers ≡ some w) × (w.publishing ≡ true))
      × ((begin_publish s.manager ws).1 ≡ none)
      × ((closing : Closing) → (stop_round s.manager ws closing).1 ≡ waits)
unfolding begin_publish begin_publish_worker stop_round
Reach_one_publication options {s} ws r found = elim (Option-cases (lookup ws s.manager.workers)) [
  | inl e ↦ absurd (nobody e)
  | inr (w, e) ↦
      let busy = marked w e in
      ((w, e, busy), ground (arith, e, busy), λ closing. ground (arith, e, busy))
]
  where
    sound : Sound (lookup ws s.manager.workers) (lookup ws s.running)
    sound = Reach-IsSound options r ws

    nobody : lookup ws s.manager.workers ≡ none → ⊥
    nobody e = ground (arith, found, subst (λ o. Sound o (lookup ws s.running)) e sound)

    marked : (w : Worker) → lookup ws s.manager.workers ≡ some w → w.publishing ≡ true
    marked w e = ground (arith, found, (subst (λ o. Sound o (lookup ws s.running)) e sound).1)
