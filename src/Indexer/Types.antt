-- ===== src/Indexer/Types.antt =====
-- indexer/lifecycle.go, indexer/queue.go, indexer/coordinator.go: the state of the manager. Instants and
-- durations are nanoseconds. A timer that is set is `some` delay; a channel is `some` whether it is closed.
use agent_graph.Prelude.{Str, List, Option, Bool, ℕ}
use agent_graph.Prelude.Int.{ℤ, pos}

pub record Progress : Type 0 where
  pub completed : ℤ
  pub total : ℤ

pub record Status : Type 0 where
  pub workspace : Str
  pub endpoint : Str
  pub running : Bool
  pub activity : ℤ
  pub progress : Progress
  pub queued_paths : List Str
  pub version : ℤ
  pub error : Str
  pub idle_deadline : ℤ

-- The lock is `none` once the owner is closed.
pub record Owner : Type 0 where
  pub lock : Option ℕ
  pub endpoint : Str

pub record Worker : Type 0 where
  pub owner : Owner
  pub status : Status
  pub pending : List Str
  pub pending_set : List Str
  pub timer : Option ℤ
  pub publishing : Bool
  pub stopping : Bool
  pub publish_done : Option Bool
  pub retry_delay : ℤ
  pub reconcile_timer : Option ℤ

-- The manager, less its lock. The publisher and the reconciler are the environment's.
pub record Manager : Type 0 where
  pub workers : List (Str × Worker)
  pub throttle : ℤ
  pub idle : ℤ
  pub retry_base : ℤ
  pub retry_max : ℤ
  pub has_reconciler : Bool
  pub reconcile : ℤ

pub record Batch : Type 0 where
  pub workspace : Str
  pub paths : List Str

-- Why a call of the manager fails. The texts are for people and are left out.
pub data Fault : Type 0 where
  path_required path_unresolved path_outside : Fault
  not_running : Fault
  not_acquired : Fault
  not_closed : Fault

abbrev pub second : ℤ
second = pos 1_000_000_000

abbrev pub minute : ℤ
minute = pos 60_000_000_000

abbrev pub idle_timeout : ℤ
idle_timeout = pos 300_000_000_000

abbrev pub publish_throttle : ℤ
publish_throttle = pos 250_000_000

abbrev pub retry_backoff : ℤ
retry_backoff = second

abbrev pub max_retry_backoff : ℤ
max_retry_backoff = minute

abbrev pub reconcile_period : ℤ
reconcile_period = pos 300_000_000_000
