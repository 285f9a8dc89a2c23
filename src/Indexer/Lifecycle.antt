-- ===== src/Indexer/Lifecycle.antt =====
-- indexer/lifecycle.go and the options of indexer/queue.go. A root is given as its absolute path, the
-- clock as an instant, and what the operating system does as an argument.
use agent_graph.Prelude.{
  Str, List, [], ◌∷◌, Option, none, some, Result, ok, err, Bool, true, false, str_eq, if◌then◌else◌,
  lookup, delete, not, is_some,
}
use agent_graph.Prelude.Int.{ℤ, pos, ltb_ℤ, ◌+ℤ◌}
use agent_graph.Indexer.Types.{
  Status, Owner, Worker, Manager, Fault, not_acquired, not_closed, idle_timeout, publish_throttle,
  retry_backoff, max_retry_backoff, reconcile_period,
}
use agent_graph.Indexer.Queue.{put, schedule_reconciliation}

-- The options that set a field of the manager.
pub data ManagerOption : Type 0 where
  with_publish_throttle with_idle_timeout with_reconciliation_interval : ℤ → ManagerOption
  with_retry_backoff : (base maximum : ℤ) → ManagerOption
  with_reconciler : Bool → ManagerOption

abbrev pub set_retry_max : ℤ → Manager → Manager
set_retry_max maximum m = if ltb_ℤ maximum m.retry_base then m else record m { retry_max = maximum }

unfoldable pub apply_option : ManagerOption → Manager → Manager
apply_option (with_publish_throttle throttle) m =
    if ltb_ℤ (pos 0) throttle then record m { throttle = throttle } else m
apply_option (with_idle_timeout timeout) m =
    if ltb_ℤ (pos 0) timeout then record m { idle = timeout } else m
apply_option (with_retry_backoff base maximum) m =
    set_retry_max maximum (if ltb_ℤ (pos 0) base then record m { retry_base = base } else m)
apply_option (with_reconciler given) m = record m { has_reconciler = given }
apply_option (with_reconciliation_interval interval) m =
    if ltb_ℤ (pos 0) interval then record m { reconcile = interval } else m

abbrev pub default_manager : Manager
default_manager = record {
  workers = [];
  throttle = publish_throttle;
  idle = idle_timeout;
  retry_base = retry_backoff;
  retry_max = max_retry_backoff;
  has_reconciler = false;
  reconcile = reconcile_period;
}

unfoldable pub apply_options : List ManagerOption → Manager → Manager
unfolding apply_option
apply_options [] m = m
apply_options (option ∷ options) m = apply_options options (apply_option option m)

unfoldable pub new_manager : List ManagerOption → Manager
unfolding apply_options
new_manager options = apply_options options default_manager

abbrev pub touch_status : ℤ → ℤ → Status → Status
touch_status idle now s = record s { activity = now; idle_deadline = now +ℤ idle }

abbrev pub initial_status : ℤ → ℤ → Str → Owner → Status
initial_status idle now workspace owner = record {
  workspace = workspace;
  endpoint = owner.endpoint;
  running = true;
  activity = now;
  progress = record { completed = pos 0; total = pos 0 };
  queued_paths = [];
  version = pos 0;
  error = [];
  idle_deadline = now +ℤ idle;
}

abbrev pub new_worker : Owner → Status → Worker
new_worker owner status = record {
  owner = owner;
  status = status;
  pending = [];
  pending_set = [];
  timer = none;
  publishing = false;
  stopping = false;
  publish_done = none;
  retry_delay = pos 0;
  reconcile_timer = none;
}

-- `Start`, with the owner that `Acquire` gives.
unfoldable pub start : Manager → Str → ℤ → Option Owner → Manager × Result Fault Status
start m workspace now acquired = elim (lookup workspace m.workers) [
  | some w ↦
      let status = touch_status m.idle now w.status in
      (put workspace (record w { status = status }) m, ok status)
  | none ↦ elim acquired [
    | none ↦ (m, err not_acquired)
    | some owner ↦
        let status = initial_status m.idle now workspace owner in
        let w = new_worker owner status in
        (put workspace (if m.has_reconciler then schedule_reconciliation m w else w) m, ok status)
  ]
]

abbrev pub no_status : Str → Status
no_status workspace = record {
  workspace = workspace;
  endpoint = [];
  running = false;
  activity = pos 0;
  progress = record { completed = pos 0; total = pos 0 };
  queued_paths = [];
  version = pos 0;
  error = [];
  idle_deadline = pos 0;
}

unfoldable pub status : Manager → Str → Status × Bool
status m workspace = elim (lookup workspace m.workers) [
  | none ↦ (no_status workspace, false)
  | some w ↦ (w.status, true)
]

unfoldable pub touch : Manager → Str → ℤ → Manager × Status × Bool
touch m workspace now = elim (lookup workspace m.workers) [
  | none ↦ (m, no_status workspace, false)
  | some w ↦
      let s = touch_status m.idle now w.status in
      (put workspace (record w { status = s }) m, s, true)
]

-- What one round of the loop of `Stop` does: it is done, or waits for the publication that runs, or fails.
pub data StopRound : Type 0 where
  stopped waits : StopRound
  failed : Fault → StopRound

abbrev pub halt : Worker → Worker
halt w = record w { stopping = true; timer = none; reconcile_timer = none }

-- What `Owner.Close` finds: the lock file lets itself be unlocked and closed, or one of the two fails.
pub data Closing : Type 0 where
  closes cannot_unlock cannot_close : Closing

-- `Owner.Close`, and whether it succeeds. Without a lock it does nothing.
abbrev pub close : Closing → Owner → Owner × Bool
close closes owner = (record owner { lock = none }, true)
close cannot_unlock owner = (owner, not (is_some owner.lock))
close cannot_close owner = (record owner { lock = none }, not (is_some owner.lock))

abbrev pub keep_running : Closing → Worker → Worker
keep_running closing w = record w {
  owner = (close closing w.owner).0;
  stopping = false;
  timer = none;
  reconcile_timer = none;
}

-- A round of `Stop`, from the lock to the unlock.
unfoldable pub stop_round : Manager → Str → Closing → Manager × StopRound
stop_round m workspace closing = elim (lookup workspace m.workers) [
  | none ↦ (m, stopped)
  | some w ↦
      if w.publishing
      then (put workspace (halt w) m, waits)
      else if (close closing w.owner).1
      then (record m { workers = delete workspace m.workers }, stopped)
      else (put workspace (keep_running closing w) m, failed not_closed)
]
