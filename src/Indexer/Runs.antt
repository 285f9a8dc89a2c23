-- ===== src/Indexer/Runs.antt =====
-- indexer/: the manager among its callers, its timers and its publishers, as steps that interleave.
use agent_graph.Prelude.{
  Str, List, Option, none, some, ◌≡◌, lookup, assign, delete, is_some, str_eq,
}
use agent_graph.Prelude.Int.{ℤ}
use agent_graph.Indexer.Types.{Worker, Manager, Batch, Owner}
use agent_graph.Indexer.Queue.{
  enqueue, begin_publish, finish_publish, begin_reconcile, finish_reconcile, Outcome,
}
use agent_graph.Indexer.Lifecycle.{Closing, start, touch, stop_round}
use agent_graph.Indexer.Invariant.{Inv}

-- The manager and the publications that run: the paths of each, under its workspace.
pub record System : Type 0 where
  pub manager : Manager
  pub running : List (Str × List Str)

abbrev pub run_batch : Option Batch → List (Str × List Str) → List (Str × List Str)
run_batch none running = running
run_batch (some batch) running = assign batch.workspace batch.paths running

-- What happens between two moments at which nobody holds the manager's lock. A timer may fire when it
-- likes, so `begins` and `reconciles` are always possible.
pub data Step (s t : System) : Type 0 where
  starts :
      (ws : Str) (now : ℤ) (acquired : Option Owner)
      → t ≡ record s { manager = (start s.manager ws now acquired).0 }
      → Step s t
  touches : (ws : Str) (now : ℤ) → t ≡ record s { manager = (touch s.manager ws now).0 } → Step s t
  enqueues :
      (ws : Str) (events : List Str)
      → t ≡ record s { manager = (enqueue s.manager ws events).0 }
      → Step s t
  begins :
      (ws : Str)
      → t ≡ record {
        manager = (begin_publish s.manager ws).0;
        running = run_batch (begin_publish s.manager ws).1 s.running;
      }
      → Step s t
  finishes :
      (ws : Str) (paths : List Str) (outcome : Outcome)
      → lookup ws s.running ≡ some paths
      → t ≡ record {
        manager = finish_publish s.manager ws paths outcome;
        running = delete ws s.running;
      }
      → Step s t
  stops :
      (ws : Str) (closing : Closing)
      → t ≡ record s { manager = (stop_round s.manager ws closing).0 }
      → Step s t
  reconciles : (ws : Str) → t ≡ record s { manager = (begin_reconcile s.manager ws).0 } → Step s t
  reconciled :
      (ws : Str) (error : Option Str)
      → t ≡ record s { manager = finish_reconcile s.manager ws error }
      → Step s t

pub data Reach (s : System) : System → Type 0 where
  here : Reach s s
  next : {t u : System} → Reach s t → Step t u → Reach s u

-- A worker publishes exactly while a publication of its workspace runs, and no publication outlives its
-- worker.
abbrev pub Sound : Option Worker → Option (List Str) → Type 0
Sound none running = running ≡ none
Sound (some w) running = Inv w × (w.publishing ≡ is_some running)

abbrev pub IsSound : System → Type 0
IsSound s = (ws : Str) → Sound (lookup ws s.manager.workers) (lookup ws s.running)
