-- ===== src/Indexer/Rests.antt =====
-- indexer/queue.go and indexer/lifecycle.go: a worker with pending paths and no timer, and steps that leave it so.
use agent_graph.Prelude.{
  Str, List, Option, none, some, false, ◌≡◌, ◌≢◌, refl, sym, arith, In, lookup, str_eq,
  Str-discrete, if◌then◌else◌, ◌==◌, ◌||◌, not, inl, inr, subst, if_ind, Option-cases, ap, ◌∙◌,
}
use agent_graph.Prelude.Int.{ℤ}
use agent_graph.Indexer.Types.{Worker, Manager}
use agent_graph.Indexer.Queue.{enqueue, enqueue_worker, add_events}
use agent_graph.Indexer.Lifecycle.{ManagerOption, Closing, close, stop_round, stopped}
use agent_graph.Indexer.Workers.{
  map_worker, begin_reconcile_worker, finish_reconcile_worker, stop_found, start_found,
  lookup-enqueue, lookup-begin_publish, lookup-finish_publish, lookup-stop_round, lookup-touch,
  lookup-start, lookup-begin_reconcile, lookup-finish_reconcile,
}
use agent_graph.Indexer.Invariant.{add_events_frame}
use agent_graph.Indexer.Pending.{add_events_keeps}
use agent_graph.Indexer.Runs.{
  System, Step, starts, touches, enqueues, begins, finishes, stops, reconciles, reconciled, Reach,
  Sound, IsSound,
}
use agent_graph.Indexer.Soundness.{initial, Reach-IsSound}

-- The path is pending, but no timer will publish it, though the worker neither publishes nor stops. The status
-- shows the paths `queued`.
pub record IsStalled (path : Str) (queued : List Str) (w : Worker) : Type 0 where
  pub waits : In path w.pending
  pub idle : w.publishing ≡ false
  pub unstopped : w.stopping ≡ false
  pub unscheduled : w.timer ≡ none
  pub shown : w.status.queued_paths ≡ queued

IsStalled-same :
    {path : Str} {queued : List Str} (w u : Worker)
    → (u.pending ≡ w.pending)
      × (u.publishing ≡ w.publishing)
      × (u.stopping ≡ w.stopping)
      × (u.timer ≡ w.timer)
      × (u.status.queued_paths ≡ w.status.queued_paths)
    → IsStalled path queued w
    → IsStalled path queued u
IsStalled-same {path} w u (a, b, c, d, e) k = record {
  waits = subst (In path) (sym a) k.waits;
  idle = b ∙ k.idle;
  unstopped = c ∙ k.unstopped;
  unscheduled = d ∙ k.unscheduled;
  shown = e ∙ k.shown;
}

abbrev pub Stalled : Str → List Str → Option Worker → Type 0
Stalled path queued none = ⊥
Stalled path queued (some w) = IsStalled path queued w

-- Steps that do not come to the help of the worker of `ws`: `Enqueue` refuses its events, `Stop` does not stop it,
-- and `publish` is called for it only by a timer that it has set.
abbrev pub Quiet : Str → {s t : System} → Step s t → Type 0
Quiet ws {s} (enqueues ws' events e) = (ws' ≡ ws) → (enqueue s.manager ws' events).1 ≢ none
Quiet ws {s} (begins ws' e) =
    (ws' ≡ ws) → (w : Worker) → lookup ws s.manager.workers ≡ some w → w.timer ≢ none
Quiet ws {s} (stops ws' closing e) = (ws' ≡ ws) → (stop_round s.manager ws' closing).1 ≢ stopped
Quiet ws _ = Unit {0}

-- Runs of such steps.
pub data Rests (ws : Str) (s : System) : System → Type 0 where
  here : Rests ws s s
  next : {t u : System} → Rests ws s t → (step : Step t u) → Quiet ws step → Rests ws s u

Stalled-elsewhere :
    (ws ws' path : Str) (queued : List Str) (before after : List (Str × Worker))
    (f : Option Worker → Option Worker)
    → lookup ws after ≡ (if ws' == ws then f (lookup ws' before) else lookup ws before)
    → Stalled path queued (lookup ws before)
    → (ws' ≡ ws
        → (w : Worker) → lookup ws' before ≡ some w
        → IsStalled path queued w
        → Stalled path queued (f (some w)))
    → Stalled path queued (lookup ws after)
Stalled-elsewhere ws ws' path queued before after f a h kept = elim (Str-discrete ws' ws) [
  | no n ↦
      let same : lookup ws before ≡ lookup ws after = ground (arith, a, n) in
      subst (Stalled path queued) same h
  | yes e ↦ elim (Option-cases (lookup ws' before)) [
    | inl q ↦
        let gone : lookup ws before ≡ none = ground (arith, e, q) in
        absurd (subst (Stalled path queued) gone h)
    | inr (w, q) ↦
        let here : lookup ws before ≡ some w = ground (arith, e, q) in
        let now : f (some w) ≡ lookup ws after = ground (arith, a, e, q) in
        subst (Stalled path queued) now (kept e w q (subst (Stalled path queued) here h))
  ]
]

-- Only pending paths are added to a worker whose events are refused.
pub add_events-IsStalled :
    (ws path : Str) (queued : List Str) (w : Worker) (events : List Str)
    → IsStalled path queued w
    → IsStalled path queued (add_events ws w events).0
add_events-IsStalled ws path queued w events h =
    let (a, b, c, _, d) = add_events_frame ws w events in
    record {
      waits = add_events_keeps ws w events path h.waits;
      idle = b ∙ h.idle;
      unstopped = a ∙ h.unstopped;
      unscheduled = c ∙ h.unscheduled;
      shown = ap (λ s. s.queued_paths) d ∙ h.shown;
    }

pub enqueue_worker-refused :
    (throttle : ℤ) (ws : Str) (w : Worker) (events : List Str)
    → w.stopping ≡ false
    → (enqueue_worker throttle ws w events).1 ≢ none
    → (enqueue_worker throttle ws w events).0 ≡ (add_events ws w events).0
unfolding enqueue_worker
enqueue_worker-refused throttle ws w events s h = elim (Option-cases (add_events ws w events).1) [
  | inl e ↦ absurd (h (ground (arith, s, e)))
  | inr (fault, e) ↦ ground (arith, s, e)
]

stopped-IsStalled :
    (m : Manager) (ws path : Str) (queued : List Str) (w : Worker) (closing : Closing)
    → lookup ws m.workers ≡ some w
    → (stop_round m ws closing).1 ≢ stopped
    → IsStalled path queued w
    → Stalled path queued (stop_found closing (some w))
unfolding stop_round
stopped-IsStalled m ws path queued w closing found refused h =
    if_ind (Stalled path queued) w.publishing (λ busy. absurd (ground (arith, busy, h.idle)))
      (λ idle.
        if_ind (Stalled path queued) (close closing w.owner).1
          (λ done. absurd (refused (ground (arith, found, idle, done))))
          (λ _. record {
            waits = h.waits;
            idle = h.idle;
            unstopped = refl;
            unscheduled = refl;
            shown = h.shown;
          }))

begin_reconcile-IsStalled :
    {path : Str} {queued : List Str} (m : Manager) (w : Worker)
    → IsStalled path queued w
    → IsStalled path queued (begin_reconcile_worker m w)
begin_reconcile-IsStalled {path} {queued} m w k =
    if_ind (IsStalled path queued) (w.stopping || not m.has_reconciler) (λ _. k)
      (λ _. IsStalled-same w _ (refl, refl, refl, refl, refl) k)

finish_reconcile-IsStalled :
    {path : Str} {queued : List Str} (m : Manager) (error : Option Str) (w : Worker)
    → IsStalled path queued w
    → IsStalled path queued (finish_reconcile_worker m error w)
finish_reconcile-IsStalled {path} {queued} m none w k =
    if_ind (IsStalled path queued) w.stopping (λ _. k)
      (λ _. IsStalled-same w _ (refl, refl, refl, refl, refl) k)
finish_reconcile-IsStalled {path} {queued} m (some text) w k =
    if_ind (IsStalled path queued) w.stopping (λ _. k)
      (λ _. IsStalled-same w _ (refl, refl, refl, refl, refl) k)

pub enqueue_accepts :
    (m : Manager) (ws : Str) (events : List Str) (w : Worker)
    → lookup ws m.workers ≡ some w
    → (enqueue_worker m.throttle ws w events).1 ≡ none
    → (enqueue m ws events).1 ≡ none
unfolding enqueue
enqueue_accepts m ws events w found h = ground (arith, found, h)

-- A publication that runs marks its worker.
finish_absurd :
    {A : Type 0} (path : Str) (queued paths : List Str) (w : Worker) (r : Option (List Str))
    → Sound (some w) r
    → r ≡ some paths
    → IsStalled path queued w
    → A
finish_absurd path queued paths w r s e h = absurd (ground (arith, s.1, e, h.idle))

Step-Stalled :
    (path : Str) (queued : List Str) (ws : Str) {s t : System} (step : Step s t)
    → Quiet ws step
    → IsSound s
    → Stalled path queued (lookup ws s.manager.workers)
    → Stalled path queued (lookup ws t.manager.workers)
Step-Stalled path queued ws {s} (starts ws' now acquired e) q sound h =
    Stalled-elsewhere ws ws' path queued _ _ (start_found s.manager ws' now acquired)
      (ap (λ u. lookup ws u.manager.workers) e ∙ lookup-start s.manager ws' ws now acquired) h
      (λ _ w _ k. IsStalled-same w _ (refl, refl, refl, refl, refl) k)
Step-Stalled path queued ws {s} (touches ws' now e) q sound h =
    Stalled-elsewhere ws ws' path queued _ _ (map_worker _)
      (ap (λ u. lookup ws u.manager.workers) e ∙ lookup-touch s.manager ws' ws now) h
      (λ _ w _ k. IsStalled-same w _ (refl, refl, refl, refl, refl) k)
Step-Stalled path queued ws {s} (enqueues ws' events e) q sound h =
    Stalled-elsewhere ws ws' path queued _ _ (map_worker _)
      (ap (λ u. lookup ws u.manager.workers) e ∙ lookup-enqueue s.manager ws' ws events) h
      (λ p w found k.
        subst (IsStalled path queued)
          (sym (
            enqueue_worker-refused s.manager.throttle ws' w events k.unstopped
              (λ fine. q p (enqueue_accepts s.manager ws' events w found fine))))
          (add_events-IsStalled ws' path queued w events k))
Step-Stalled path queued ws {s} (begins ws' e) q sound h =
    Stalled-elsewhere ws ws' path queued _ _ (map_worker _)
      (ap (λ u. lookup ws u.manager.workers) e ∙ lookup-begin_publish s.manager ws' ws) h
      (λ p w found k.
        absurd (q p w (subst (λ x. lookup x s.manager.workers ≡ some w) p found) k.unscheduled))
Step-Stalled path queued ws {s} (finishes ws' paths outcome running e) q sound h =
    Stalled-elsewhere ws ws' path queued _ _ (map_worker _)
      (ap (λ u. lookup ws u.manager.workers) e
        ∙ lookup-finish_publish s.manager ws' ws paths outcome)
      h
      (λ p w found k.
        finish_absurd path queued paths w (lookup ws' s.running)
          (subst (λ o. Sound o (lookup ws' s.running)) found (sound ws')) running k)
Step-Stalled path queued ws {s} (stops ws' closing e) q sound h =
    Stalled-elsewhere ws ws' path queued _ _ (stop_found closing)
      (ap (λ u. lookup ws u.manager.workers) e ∙ lookup-stop_round s.manager ws' ws closing) h
      (λ p w found k. stopped-IsStalled s.manager ws' path queued w closing found (q p) k)
Step-Stalled path queued ws {s} (reconciles ws' e) q sound h =
    Stalled-elsewhere ws ws' path queued _ _ (map_worker _)
      (ap (λ u. lookup ws u.manager.workers) e ∙ lookup-begin_reconcile s.manager ws' ws) h
      (λ p w found k. begin_reconcile-IsStalled s.manager w k)
Step-Stalled path queued ws {s} (reconciled ws' error e) q sound h =
    Stalled-elsewhere ws ws' path queued _ _ (map_worker _)
      (ap (λ u. lookup ws u.manager.workers) e ∙ lookup-finish_reconcile s.manager ws' ws error) h
      (λ p w found k. finish_reconcile-IsStalled s.manager error w k)

pub Rests-Stalled :
    (options : List ManagerOption) (path : Str) (queued : List Str) (ws : Str) {s t : System}
    → Rests ws s t
    → Reach (initial options) s
    → Stalled path queued (lookup ws s.manager.workers)
    → Reach (initial options) t × Stalled path queued (lookup ws t.manager.workers)
Rests-Stalled options path queued ws here r h = (r, h)
Rests-Stalled options path queued ws (next run step q) r h =
    let (reached, k) = Rests-Stalled options path queued ws run r h in
    (Reach.next reached step, Step-Stalled path queued ws step q (Reach-IsSound options reached) k)

-- A worker that stays.
pub Stalled-worker :
    (path : Str) (queued : List Str) (o : Option Worker)
    → Stalled path queued o
    → (u : Worker) × (o ≡ some u) × IsStalled path queued u
Stalled-worker path queued none h = absurd h
Stalled-worker path queued (some u) h = (u, refl, h)
