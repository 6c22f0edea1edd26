-- ===== src/Schema.antt =====
-- The tables of internal/store/postgres/migrations, as the store packages use them.
-- A UUID is a number, since only its equality is used. An instant is the number of nanoseconds
-- since Go's zero time; INTEGER columns that a CHECK keeps positive are plain numbers.
use fleetforge.Base.{ℕ, String, Bool, true, false, Option, List}
use fleetforge.Base.Int.{ℤ}

abbrev pub Uuid : Type 0
Uuid = ℕ

abbrev pub Instant : Type 0
Instant = ℕ

-- CREATE TYPE worker_status.
pub data WorkerStatus : Type 0 where
  registering ready busy draining offline dead : WorkerStatus

-- CREATE TYPE job_status.
pub data JobStatus : Type 0 where
  queued assigned running success failed retrying cancelled : JobStatus

abbrev pub worker_status_eq : WorkerStatus → WorkerStatus → Bool
worker_status_eq registering registering = true
worker_status_eq ready ready = true
worker_status_eq busy busy = true
worker_status_eq draining draining = true
worker_status_eq offline offline = true
worker_status_eq dead dead = true
worker_status_eq _ _ = false

abbrev pub job_status_eq : JobStatus → JobStatus → Bool
job_status_eq queued queued = true
job_status_eq assigned assigned = true
job_status_eq running running = true
job_status_eq success success = true
job_status_eq failed failed = true
job_status_eq retrying retrying = true
job_status_eq cancelled cancelled = true
job_status_eq _ _ = false

-- status NOT IN ('OFFLINE', 'DEAD').
abbrev pub is_live : WorkerStatus → Bool
is_live offline = false
is_live dead = false
is_live _ = true

-- status IN ('ASSIGNED', 'RUNNING').
abbrev pub is_held : JobStatus → Bool
is_held assigned = true
is_held running = true
is_held _ = false

pub record Worker : Type 0 where
  pub id : Uuid
  pub hostname : String
  pub instance_id : String
  pub os : String
  pub cpu_cores : ℕ
  pub memory_mb : ℕ
  pub labels : List (String × String)
  pub capabilities : List String
  pub status : WorkerStatus
  pub current_job_id : Option Uuid
  pub current_job_created_at : Option Instant
  pub last_heartbeat : Option Instant
  pub version : String
  pub capacity_slots : ℕ
  pub available_capacity : ℕ
  pub epoch : ℕ
  pub registered_at : Instant
  pub drain_requested : Bool

pub record Job : Type 0 where
  pub id : Uuid
  pub priority : ℕ
  pub repository : String
  pub branch : String
  pub commit_sha : String
  pub labels : List (String × String)
  pub required_capabilities : List String
  pub retries : ℤ
  pub max_retries : ℤ
  pub status : JobStatus
  pub worker_id : Option Uuid
  pub assignment_epoch : Option ℕ
  pub idempotency_key : Option String
  pub retry_at : Option Instant
  pub log_ref : Option String
  pub created_at : Instant
  pub started_at : Option Instant
  pub finished_at : Option Instant

-- The status column of a history row is 'FAILED' in every INSERT of the program.
pub record RetryHistory : Type 0 where
  pub job_id : Uuid
  pub job_created_at : Instant
  pub attempt_number : ℕ
  pub worker_id : Option Uuid
  pub error_message : Option String
  pub finished_at : Instant

-- The event_type values that are inserted, each with its payload.
pub data EventType : Type 0 where
  registered : (epoch : ℕ) (instance_id : String) → EventType
  marked_dead : (epoch requeued_jobs : ℕ) → EventType
  drain_requested : (epoch : ℕ) → EventType
  drain_resumed : (epoch : ℕ) → EventType

pub record WorkerEvent : Type 0 where
  pub worker_id : Uuid
  pub event_type : EventType

-- The newest row of `history` and `events` stands first.
pub record Db : Type 0 where
  pub workers : List Worker
  pub jobs : List Job
  pub history : List RetryHistory
  pub events : List WorkerEvent
