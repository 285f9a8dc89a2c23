-- ===== src/Indexer/Examples.antt =====
-- indexer/ on a run: a workspace starts, stops, touches, a path comes in, its publication fails, another one ends it.
use agent_graph.Prelude.{
  Str, List, bytes, [], ◌∷◌, none, some, ok, err, true, false, ◌≡◌, ◌≢◌, ◌↔◌, refl, arith, ◌⊎◌, inl,
  inr, str_eq, Str-discrete, ℕ_discrete, lookup, In, delete,
}
use agent_graph.Prelude.Int.{pos, ℤ-discrete, double_int64, ◌+ℤ◌}
use agent_graph.GoPath.{join_components, resolve, components, clean, join, drop_common, rel, split}
use agent_graph.Indexer.Types.{Owner, Worker, path_outside, not_closed}
use agent_graph.Indexer.EventPath.{
  is_parent_path, absolute_path, leaves_workspace, normalize_event_path,
}
use agent_graph.Indexer.Queue.{
  add_path, add_events, schedule_pending, enqueue_worker, enqueue, begin_publish_worker,
  begin_publish, panicked, call_publisher, add_unique, unique_paths, next_delay,
  finish_publish_worker, finish_publish,
}
use agent_graph.Indexer.Lifecycle.{
  apply_option, apply_options, new_manager, default_manager, start, touch, stop_round, waits,
  failed, stopped, Closing, cannot_unlock,
}
use agent_graph.Indexer.Runs.{
  System, run_batch, Step, starts, enqueues, stops, touches, begins, finishes, Reach, IsSound,
}
use agent_graph.Indexer.Soundness.{initial, Reach-IsSound, Reach_one_publication}
use agent_graph.Indexer.Wakeup.{IsAwake, Serves, Serves-IsAwake}
use agent_graph.Indexer.Delivery.{Holds, Releases, Reach_keeps_paths}
use agent_graph.Indexer.Pending.{pending-finish_publish_worker}
use agent_graph.Indexer.Backoff.{failures, retry_delay-failures}
use agent_graph.Indexer.Rests.{IsStalled, Rests}
use agent_graph.Indexer.Stalls.{stop_round_stalls, enqueue_stalls}
use agent_graph.Indexer.Below.{IsBelow, normalize_event_path_iff}

-- Evaluates the component.
run : Unit {0}
unfolding is_parent_path leaves_workspace normalize_event_path add_path add_events schedule_pending
    enqueue_worker enqueue begin_publish_worker begin_publish call_publisher add_unique unique_paths
    next_delay finish_publish_worker finish_publish apply_option apply_options new_manager start
    stop_round Str-discrete ℕ_discrete ℤ-discrete double_int64 rel clean join join_components
    components resolve split drop_common ◌+ℤ◌
run = tt

abbrev pub workspace : Str
workspace = bytes "/w"

abbrev pub owner : Owner
owner = record { lock = some 3; endpoint = bytes "socket" }

abbrev pub started : System
started = record {
  manager = (start (new_manager []) workspace (pos 7) (some owner)).0;
  running = [];
}

abbrev pub queued : System
queued = record started { manager = (enqueue started.manager workspace (bytes "a.go" ∷ [])).0 }

abbrev pub publishing : System
publishing = record {
  manager = (begin_publish queued.manager workspace).0;
  running = run_batch (begin_publish queued.manager workspace).1 queued.running;
}

abbrev pub to_publishing : Reach (initial []) publishing
to_publishing =
    Reach.next
      (Reach.next (Reach.next Reach.here (starts workspace (pos 7) (some owner) refl))
        (enqueues workspace (bytes "a.go" ∷ []) refl))
      (begins workspace refl)

queued_pending : lookup workspace publishing.running ≡ some (bytes "a.go" ∷ [])
unfolding run
queued_pending = refl

normalize_event_path-outside : normalize_event_path workspace (bytes "../b.go") ≡ err path_outside
unfolding run
normalize_event_path-outside = refl

unique_paths-twice :
    unique_paths (bytes "a" ∷ bytes "b" ∷ bytes "a" ∷ []) ≡ bytes "a" ∷ bytes "b" ∷ []
unfolding run
unique_paths-twice = refl

Reach-IsSound_example : IsSound publishing
Reach-IsSound_example = Reach-IsSound [] to_publishing

Reach_one_publication_example :
    ((w : Worker) × (lookup workspace publishing.manager.workers ≡ some w) × (w.publishing ≡ true))
    × ((begin_publish publishing.manager workspace).1 ≡ none)
    × ((closing : Closing) → (stop_round publishing.manager workspace closing).1 ≡ waits)
Reach_one_publication_example = Reach_one_publication [] workspace to_publishing queued_pending

abbrev pub fresh_worker : Worker
fresh_worker = record {
  owner = owner;
  status = record {
    workspace = workspace;
    endpoint = owner.endpoint;
    running = true;
    activity = pos 7;
    progress = record { completed = pos 0; total = pos 0 };
    queued_paths = [];
    version = pos 0;
    error = [];
    idle_deadline = pos 300_000_000_007;
  };
  pending = [];
  pending_set = [];
  timer = none;
  publishing = false;
  stopping = false;
  publish_done = none;
  retry_delay = pos 0;
  reconcile_timer = none;
}

abbrev pub queued_worker : Worker
queued_worker = record fresh_worker {
  status = record (fresh_worker.status) { queued_paths = bytes "a.go" ∷ [] };
  pending = bytes "a.go" ∷ [];
  pending_set = bytes "a.go" ∷ [];
  timer = some (pos 250_000_000);
}

started_worker : lookup workspace started.manager.workers ≡ some fresh_worker
unfolding run
started_worker = refl

found_worker : lookup workspace queued.manager.workers ≡ some queued_worker
unfolding run
found_worker = refl

accepted : (enqueue started.manager workspace (bytes "a.go" ∷ [])).1 ≡ none
unfolding run
accepted = refl

Serves-IsAwake_example : IsAwake queued_worker
Serves-IsAwake_example =
    Serves-IsAwake [] workspace
      (Serves.next (Serves.next Serves.here (starts workspace (pos 7) (some owner) refl) tt)
        (enqueues workspace (bytes "a.go" ∷ []) refl) (inl accepted))
      found_worker

abbrev pub finished : System
finished = record {
  manager = finish_publish publishing.manager workspace (bytes "a.go" ∷ []) (panicked (bytes "x"));
  running = delete workspace publishing.running;
}

abbrev finishing : Step publishing finished
finishing = finishes workspace (bytes "a.go" ∷ []) (panicked (bytes "x")) queued_pending refl

flying : Holds publishing workspace (bytes "a.go")
unfolding run
flying = inr (inl refl)

Reach_keeps_paths_example :
    Holds finished workspace (bytes "a.go") ⊎ Releases finishing workspace (bytes "a.go")
Reach_keeps_paths_example =
    Reach_keeps_paths [] workspace (bytes "a.go") to_publishing flying finishing

pending-finish_publish_worker_example :
    In
      (bytes "b.go")
      (finish_publish_worker
        (new_manager [])
        (bytes "b.go" ∷ [])
        (some (bytes "x"))
        queued_worker).pending
    ↔ ((In (bytes "b.go") (bytes "b.go" ∷ []) × (some (bytes "x") ≢ none))
        ⊎ In (bytes "b.go") queued_worker.pending)
pending-finish_publish_worker_example =
    pending-finish_publish_worker (new_manager []) (bytes "b.go" ∷ []) (some (bytes "x"))
      queued_worker (bytes "b.go")

retry_delay-failures_example :
    (failures default_manager fresh_worker
      ((bytes "a.go" ∷ [], bytes "x") ∷ (bytes "a.go" ∷ [], bytes "y") ∷ [])).retry_delay
    ≡ pos 2_000_000_000
retry_delay-failures_example =
    retry_delay-failures default_manager 1_000_000_000 60_000_000_000 refl refl (omega arith)
      (omega arith) (omega arith) fresh_worker (bytes "a.go" ∷ [], bytes "x")
      ((bytes "a.go" ∷ [], bytes "y") ∷ []) refl

abbrev unstopped : System
unstopped = record queued { manager = (stop_round queued.manager workspace cannot_unlock).0 }

not_unlocked : (stop_round queued.manager workspace cannot_unlock).1 ≡ failed not_closed
unfolding run
not_unlocked = refl

-- A second attempt, which fails too.
abbrev still_unstopped : System
still_unstopped = record unstopped {
  manager = (stop_round unstopped.manager workspace cannot_unlock).0;
}

not_unlocked_again : (stop_round unstopped.manager workspace cannot_unlock).1 ≢ stopped
unfolding run
not_unlocked_again e = cc

stop_round_stalls_example :
    ((v : Worker) × (lookup workspace (stop_round queued.manager workspace cannot_unlock).0.workers
        ≡ some v)
      × (v.reconcile_timer ≡ none))
    × ((u : Worker) × (lookup workspace still_unstopped.manager.workers ≡ some u)
        × IsStalled (bytes "a.go") (bytes "a.go" ∷ []) u)
stop_round_stalls_example =
    stop_round_stalls [] workspace (bytes "a.go") queued_worker cannot_unlock not_closed
      (Reach.next (Reach.next Reach.here (starts workspace (pos 7) (some owner) refl))
        (enqueues workspace (bytes "a.go" ∷ []) refl))
      found_worker (inl refl) not_unlocked
      (Rests.next Rests.here (stops workspace cannot_unlock refl) (λ e. not_unlocked_again))

good_path : normalize_event_path workspace (bytes "a.go") ≡ ok (bytes "a.go")
unfolding run
good_path = refl

abbrev events : List Str
events = bytes "a.go" ∷ bytes "../b.go" ∷ []

abbrev refusing : System
refusing = record started { manager = (enqueue started.manager workspace events).0 }

abbrev touched : System
touched = record refusing { manager = (touch refusing.manager workspace (pos 8)).0 }

refused_events : (enqueue started.manager workspace events).1 ≡ some path_outside
unfolding run
refused_events = refl

enqueue_stalls_example :
    (u : Worker) × (lookup workspace touched.manager.workers ≡ some u)
    × IsStalled (bytes "a.go") [] u
enqueue_stalls_example =
    enqueue_stalls [] workspace (bytes "a.go") (bytes "a.go") (bytes "../b.go" ∷ []) fresh_worker
      path_outside (Serves.next Serves.here (starts workspace (pos 7) (some owner) refl) tt)
      started_worker refl refl refl good_path refused_events
      (Rests.next Rests.here (touches workspace (pos 8) refl) tt)

normalize_event_path_iff_example :
    (normalize_event_path workspace (bytes "./b/../a.go") ≡ ok (bytes "a.go"))
    ↔ IsBelow workspace (absolute_path workspace (bytes "./b/../a.go")) (bytes "a.go")
unfolding run
normalize_event_path_iff_example =
    normalize_event_path_iff workspace refl (bytes "./b/../a.go") (bytes "a.go") (λ e. cc)
