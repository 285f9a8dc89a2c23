-- ===== src/Indexer/Queue.antt =====
-- indexer/queue.go. An operation that holds the manager's lock is one function; `publish` and
-- `reconcileWorkspace` give the lock up while they call out, and are two.
use agent_graph.Prelude.{
  Str, bytes, List, [], ◌∷◌, ◌++◌, Option, none, some, ok, err, Bool, true, false, ◌==◌, str_eq,
  ◌||◌, ◌&&◌, not, if◌then◌else◌, mem, lookup, assign, is_empty, is_some,
}
use agent_graph.Prelude.Int.{ℤ, pos, ltb_ℤ, int_eq, double_int64}
use agent_graph.Indexer.Types.{Worker, Manager, Batch, Fault, not_running}
use agent_graph.Indexer.EventPath.{normalize_event_path}

-- The body of the loop of `Enqueue`, for a path that is normalised.
unfoldable pub add_path : Str → Worker → Worker
add_path path w =
    if mem path w.pending_set
    then w
    else record w { pending = w.pending ++ path ∷ []; pending_set = path ∷ w.pending_set }

-- The loop of `Enqueue`. It returns at the first event that it refuses, and keeps those before it.
unfoldable pub add_events : Str → Worker → List Str → Worker × Option Fault
add_events workspace w [] = (w, none)
add_events workspace w (event ∷ events) = elim (normalize_event_path workspace event) [
  | err fault ↦ (w, some fault)
  | ok path ↦ add_events workspace (add_path path w) events
]

abbrev pub schedule_after : ℤ → Worker → Worker
schedule_after delay w = record w { timer = some delay }

abbrev pub show_pending : Worker → Worker
show_pending w = record w { status = record (w.status) { queued_paths = w.pending } }

unfoldable pub schedule_pending : ℤ → Worker → Worker
schedule_pending delay w =
    if not (is_empty w.pending) && not w.publishing && not (is_some w.timer)
    then schedule_after delay w
    else w

abbrev pub end_enqueue : ℤ → Worker × Option Fault → Worker × Option Fault
end_enqueue throttle (w, some fault) = (w, some fault)
end_enqueue throttle (w, none) = (schedule_pending throttle (show_pending w), none)

unfoldable pub enqueue_worker : ℤ → Str → Worker → List Str → Worker × Option Fault
enqueue_worker throttle workspace w events =
    if w.stopping
    then (w, some not_running)
    else end_enqueue throttle (add_events workspace w events)

abbrev pub put : Str → Worker → Manager → Manager
put workspace w m = record m { workers = assign workspace w m.workers }

unfoldable pub enqueue : Manager → Str → List Str → Manager × Option Fault
enqueue m workspace events = elim (lookup workspace m.workers) [
  | none ↦ (m, some not_running)
  | some w ↦
      let (w', fault) = enqueue_worker m.throttle workspace w events in (put workspace w' m, fault)
]

-- `publish` up to the call of the publisher: it takes the pending paths out.
unfoldable pub begin_publish_worker : Worker → Worker × Option (List Str)
begin_publish_worker w = if w.stopping || w.publishing || is_empty w.pending then (w, none) else (
  record w {
    pending = [];
    pending_set = [];
    status = record (w.status) { queued_paths = [] };
    timer = none;
    publishing = true;
    publish_done = some false;
  },
  some w.pending,
)

abbrev pub to_batch : Str → Option (List Str) → Option Batch
to_batch workspace none = none
to_batch workspace (some paths) = some (record { workspace = workspace; paths = paths })

unfoldable pub begin_publish : Manager → Str → Manager × Option Batch
begin_publish m workspace = elim (lookup workspace m.workers) [
  | none ↦ (m, none)
  | some w ↦
      let (w', paths) = begin_publish_worker w in (put workspace w' m, to_batch workspace paths)
]

-- How the publisher ends. `callPublisher` turns a panic into an error.
pub data Outcome : Type 0 where
  returned : Option Str → Outcome
  panicked : Str → Outcome

unfoldable pub call_publisher : Outcome → Option Str
call_publisher (returned error) = error
call_publisher (panicked recovered) = some (bytes "publish batch: " ++ recovered)

unfoldable pub add_unique : List Str → List Str → List Str → List Str
add_unique seen unique [] = unique
add_unique seen unique (path ∷ paths) =
    add_unique (if mem path seen then seen else path ∷ seen)
      (if mem path seen then unique else unique ++ path ∷ []) paths

unfoldable pub unique_paths : List Str → List Str
unfolding add_unique
unique_paths paths = add_unique [] [] paths

unfoldable pub next_delay : Manager → ℤ → ℤ
next_delay m delay =
    if delay == pos 0
    then m.retry_base
    else if ltb_ℤ m.retry_max (double_int64 delay)
    then m.retry_max
    else double_int64 delay

-- The branches of `publish` on the publisher's error.
abbrev pub settle : Manager → List Str → Option Str → Worker → Worker
settle m paths none w = record w { status = record (w.status) { error = [] }; retry_delay = pos 0 }
settle m paths (some error) w =
    let pending = unique_paths (paths ++ w.pending) in
    record w {
      pending = pending;
      pending_set = pending;
      status = record (w.status) { error = error; queued_paths = pending };
      retry_delay = next_delay m w.retry_delay;
    }

abbrev pub delay_after : Manager → Option Str → Worker → ℤ
delay_after m none w = m.throttle
delay_after m (some error) w = w.retry_delay

abbrev pub reschedule : ℤ → Worker → Worker
reschedule delay w =
    if not (is_empty w.pending) && not w.stopping && not (is_some w.timer)
    then schedule_after delay w
    else w

-- `publish` after the call of the publisher.
unfoldable pub finish_publish_worker : Manager → List Str → Option Str → Worker → Worker
finish_publish_worker m paths error w =
    let settled = settle m paths error (record w { publishing = false }) in
    reschedule (delay_after m error settled) (record settled { publish_done = some true })

-- The worker that `publish` holds is the one under its workspace: `Stop` deletes no worker that is
-- publishing.
unfoldable pub finish_publish : Manager → Str → List Str → Outcome → Manager
finish_publish m workspace paths outcome = elim (lookup workspace m.workers) [
  | none ↦ m
  | some w ↦ put workspace (finish_publish_worker m paths (call_publisher outcome) w) m
]

abbrev pub schedule_reconciliation : Manager → Worker → Worker
schedule_reconciliation m w = record w { reconcile_timer = some m.reconcile }

-- `reconcileWorkspace` up to the call of the reconciler: whether it is called.
unfoldable pub begin_reconcile : Manager → Str → Manager × Bool
begin_reconcile m workspace = elim (lookup workspace m.workers) [
  | none ↦ (m, false)
  | some w ↦
      if w.stopping || not m.has_reconciler
      then (m, false)
      else (put workspace (record w { reconcile_timer = none }) m, true)
]

abbrev pub show_error : Option Str → Worker → Worker
show_error none w = w
show_error (some error) w = record w {
  status = record (w.status) { error = bytes "reconcile workspace: " ++ error };
}

-- The end of `reconcileWorkspace`, with the error of the reconciler or of its `Enqueue`.
unfoldable pub finish_reconcile : Manager → Str → Option Str → Manager
finish_reconcile m workspace error = elim (lookup workspace m.workers) [
  | none ↦ m
  | some w ↦
      if w.stopping then m else put workspace (schedule_reconciliation m (show_error error w)) m
]
