-- ===== src/Indexer/Delivery.antt =====
-- indexer/queue.go: a path that was accepted is published, or kept.
use agent_graph.Prelude.{
  Str, List, Option, none, some, ◌≡◌, refl, sym, arith, lookup, str_eq, Str-discrete, lookup-delete,
  if◌then◌else◌, ◌==◌, ◌⊎◌, inl, inr, ◌∙◌, subst, ◌||◌, not, if_ind, In, ap,
}
use agent_graph.Indexer.Types.{Worker}
use agent_graph.Indexer.Queue.{call_publisher}
use agent_graph.Indexer.Lifecycle.{ManagerOption, stop_round, stopped}
use agent_graph.Indexer.Workers.{
  lookup-enqueue, lookup-begin_publish, lookup-finish_publish, lookup-stop_round, lookup-touch,
  lookup-start, lookup-begin_reconcile, lookup-finish_reconcile,
}
use agent_graph.Indexer.Runs.{
  System, Step, starts, touches, enqueues, begins, finishes, stops, reconciles, reconciled, IsSound,
  Sound, Reach,
}
use agent_graph.Indexer.Operations.{lookup-run_batch}
use agent_graph.Indexer.Soundness.{same, initial, Reach-IsSound}
use agent_graph.Indexer.Pending.{
  enqueue_worker_keeps, Held, Waiting-map, Held-start, Held-begin, Held-stop, Held-finish,
}

abbrev pub Holds : System → Str → Str → Type 0
Holds s ws p = Held (lookup ws s.manager.workers) (lookup ws s.running) p

-- The step lets go of the path: a publication that has it succeeds, or its workspace is stopped.
abbrev pub Releases : {s t : System} → Step s t → Str → Str → Type 0
Releases (finishes ws' paths outcome found e) ws p =
    (ws' ≡ ws) × In p paths × (call_publisher outcome ≡ none)
Releases {s} (stops ws' closing e) ws p =
    (ws' ≡ ws) × ((stop_round s.manager ws' closing).1 ≡ stopped)
Releases _ ws p = ⊥

-- An operation on one workspace leaves the paths of the others where they are.
elsewhere :
    (R : Type 0) (ws' ws p : Str) (s t : System) (f : Option Worker) (g : Option (List Str))
    → (lookup ws t.manager.workers ≡ (if ws' == ws then f else lookup ws s.manager.workers))
    → (lookup ws t.running ≡ (if ws' == ws then g else lookup ws s.running))
    → (ws' ≡ ws → Held f g p ⊎ R)
    → Holds s ws p
    → Holds t ws p ⊎ R
elsewhere R ws' ws p s t f g a b here_too h = elim (Str-discrete ws' ws) [
  | yes e ↦ rw (a, b) (ground (arith, here_too e))
  | no n ↦ rw (a, b) (ground (arith, h))
]

module _ (s t : System) (ws p : Str) (sound : IsSound s) (h : Holds s ws p) where
  moved : {ws' : Str} → ws' ≡ ws → Holds s ws' p
  moved e = subst (λ x. Holds s x p) (sym e) h

  -- The steps that touch no publication.
  quiet :
      (R : Type 0) (ws' : Str) (f : Option Worker)
      → (lookup ws t.manager.workers ≡ (if ws' == ws then f else lookup ws s.manager.workers))
      → t.running ≡ s.running
      → (Holds s ws' p → Held f (lookup ws' s.running) p ⊎ R)
      → Holds t ws p ⊎ R
  quiet R ws' f a b k =
      elsewhere R ws' ws p s t f (lookup ws' s.running) a
        (ap (λ r. lookup ws r) b ∙ same ws' s.running ws) (λ e. k (moved e)) h

  -- A path that is held stays held, until a step lets go of it.
  pub Step-Holds : (step : Step s t) → Holds t ws p ⊎ Releases step ws p
  Step-Holds (starts ws' now acquired e) =
      quiet ⊥ ws' _
        (ap (λ u. lookup ws u.manager.workers) e ∙ lookup-start s.manager ws' ws now acquired)
        (ap (λ u. u.running) e) (λ i. inl (Held-start s.manager ws' now acquired _ _ p i))
  Step-Holds (touches ws' now e) =
      quiet ⊥ ws' _ (ap (λ u. lookup ws u.manager.workers) e ∙ lookup-touch s.manager ws' ws now)
        (ap (λ u. u.running) e) (λ i. inl (Waiting-map _ _ _ p (λ w j. j) i))
  Step-Holds (enqueues ws' events e) =
      quiet ⊥ ws' _
        (ap (λ u. lookup ws u.manager.workers) e ∙ lookup-enqueue s.manager ws' ws events)
        (ap (λ u. u.running) e)
        (λ i.
          inl (
            Waiting-map _ _ _ p (λ w j. enqueue_worker_keeps s.manager.throttle ws' w events p j)
              i))
  Step-Holds (begins ws' e) =
      elsewhere ⊥ ws' ws p s t _ _
        (ap (λ u. lookup ws u.manager.workers) e ∙ lookup-begin_publish s.manager ws' ws)
        (ap (λ u. lookup ws u.running) e ∙ lookup-run_batch s.manager ws' ws s.running)
        (λ same_ws. inl (Held-begin _ _ p (sound ws') (moved same_ws))) h
  Step-Holds (finishes ws' paths outcome found e) =
      elsewhere ((ws' ≡ ws) × In p paths × (call_publisher outcome ≡ none)) ws' ws p s t _ none
        (ap (λ u. lookup ws u.manager.workers) e
          ∙ lookup-finish_publish s.manager ws' ws paths outcome)
        (ap (λ u. lookup ws u.running) e ∙ lookup-delete ws' ws s.running)
        (λ same_ws.
          elim (Held-finish s.manager paths (call_publisher outcome) (lookup ws' s.manager.workers)
            p (subst (Sound (lookup ws' s.manager.workers)) found (sound ws'))
            (subst (λ r. Held (lookup ws' s.manager.workers) r p) found (moved same_ws))) [
              | inl k ↦ inl k
              | inr (i, fine) ↦ inr (same_ws, i, fine)
            ])
        h
  Step-Holds (stops ws' closing e) =
      elsewhere ((ws' ≡ ws) × ((stop_round s.manager ws' closing).1 ≡ stopped)) ws' ws p s t _ _
        (ap (λ u. lookup ws u.manager.workers) e ∙ lookup-stop_round s.manager ws' ws closing)
        (ap (λ u. lookup ws u.running) e ∙ same ws' s.running ws)
        (λ same_ws.
          elim (Held-stop s.manager ws' closing (lookup ws' s.manager.workers) _ p refl
            (moved same_ws)) [ inl k ↦ inl k | inr done ↦ inr (same_ws, done) ])
        h
  Step-Holds (reconciles ws' e) =
      quiet ⊥ ws' _
        (ap (λ u. lookup ws u.manager.workers) e ∙ lookup-begin_reconcile s.manager ws' ws)
        (ap (λ u. u.running) e)
        (λ i. inl (
          Waiting-map _ _ _ p
            (λ w j.
              if_ind (λ (u : Worker). In p u.pending) (w.stopping || not s.manager.has_reconciler)
                (λ _. j) (λ _. j))
            i))
  Step-Holds (reconciled ws' none e) =
      quiet ⊥ ws' _
        (ap (λ u. lookup ws u.manager.workers) e ∙ lookup-finish_reconcile s.manager ws' ws none)
        (ap (λ u. u.running) e)
        (λ i. inl (
          Waiting-map _ _ _ p
            (λ w j. if_ind (λ (u : Worker). In p u.pending) w.stopping (λ _. j) (λ _. j)) i))
  Step-Holds (reconciled ws' (some error) e) =
      quiet ⊥ ws' _
        (ap (λ u. lookup ws u.manager.workers) e
          ∙ lookup-finish_reconcile s.manager ws' ws (some error))
        (ap (λ u. u.running) e)
        (λ i. inl (
          Waiting-map _ _ _ p
            (λ w j. if_ind (λ (u : Worker). In p u.pending) w.stopping (λ _. j) (λ _. j)) i))

-- No accepted path is lost: in every reachable state, a path that waits in the worker of a workspace, or
-- is being published for it, still does so after the next step, unless that step is the success of a
-- publication that holds the path, or the end of a `Stop` of the workspace.
pub Reach_keeps_paths :
    (options : List ManagerOption) {s t : System} (ws p : Str)
    → Reach (initial options) s
    → Holds s ws p
    → (step : Step s t) → Holds t ws p ⊎ Releases step ws p
Reach_keeps_paths options {s} {t} ws p r h step =
    Step-Holds s t ws p (Reach-IsSound options r) h step
