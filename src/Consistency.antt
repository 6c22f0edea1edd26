-- ===== src/Consistency.antt =====
-- What holds of the database between two statements, as the schema and the comments of
-- internal/store/postgres promise it.
pub mod Statements
pub mod Numbering
pub mod Registration
pub mod Workers
pub mod Assignment
pub mod Jobs
pub mod Retries
pub mod Row
pub mod Operations
pub mod Loops
pub mod Handlers
pub mod Autoscaling
pub mod Runs
pub mod Forever
pub mod Lifecycle
use fleetforge.Base.{
  ℕ, suc, ◌+◌, ◌≤◌, ◌<◌, ◌≡◌, ◌≢◌, Bool, true, false, ◌&&◌, Option, none, some, List, [], ◌∷◌, ◌==◌,
  leb, is_some, All, query_row, count, String,
}
use fleetforge.Base.Int.{ℤ, ◌≤ℤ◌}
use fleetforge.Schema.{
  Uuid, Worker, Job, JobStatus, queued, retrying, job_status_eq, is_held, RetryHistory, Db,
}
use fleetforge.Statements.{job_at, of_job}

-- QUEUED or RETRYING: no worker has the job.
abbrev pub is_waiting : JobStatus → Bool
is_waiting queued = true
is_waiting retrying = true
is_waiting _ = false

pub record IsSoundJob (j : Job) : Type 0 where
  -- An ASSIGNED or RUNNING job names its worker and the epoch that it was assigned under.
  pub held :
      is_held j.status ≡ true → (is_some j.worker_id ≡ true) × (is_some j.assignment_epoch ≡ true)
  -- A waiting job has let go of both.
  pub free : is_waiting j.status ≡ true → (j.worker_id ≡ none) × (j.assignment_epoch ≡ none)
  -- A parked job says when it is due.
  pub parked : job_status_eq j.status retrying ≡ true → is_some j.retry_at ≡ true
  pub budget : j.retries ≤ℤ j.max_retries

pub record IsSoundWorker (w : Worker) : Type 0 where
  pub bounded : w.available_capacity ≤ w.capacity_slots
  pub has_slots : 0 < w.capacity_slots
  pub has_epoch : 0 < w.epoch

-- The attempts of a job are numbered 1, 2, 3, … in the order of their rows.
abbrev pub IsNumbered : List RetryHistory → Type 0
IsNumbered [] = Unit
IsNumbered (h ∷ hs) = (h.attempt_number ≡ count (of_job h.job_id) hs + 1) × IsNumbered hs

-- Two rows of a table differ in the column.
abbrev pub Differ : {A B : Type 0} → (A → B) → List A → Type 0
Differ column [] = Unit
Differ column (x ∷ xs) = All (λ y. column y ≢ column x) xs × Differ column xs

-- The primary key (id, created_at) of the jobs table.
abbrev pub KeysDiffer : List Job → Type 0
KeysDiffer [] = Unit
KeysDiffer (j ∷ js) = All (λ k. job_at j.id j.created_at k ≡ false) js × KeysDiffer js

-- The worker is registered, under this epoch or a later one.
abbrev pub since_epoch : Uuid → ℕ → Worker → Bool
since_epoch wid e w = w.id == wid && leb e w.epoch

abbrev pub is_known : List Worker → Option Uuid → Option ℕ → Bool
is_known ws none e = true
is_known ws (some wid) none = true
is_known ws (some wid) (some e) = is_some (query_row (since_epoch wid e) ws)

-- The worker that a job names exists, and its epoch is no earlier than the job's.
abbrev pub IsFenced : List Worker → Job → Type 0
IsFenced ws j = is_known ws j.worker_id j.assignment_epoch ≡ true

pub record IsConsistent (db : Db) : Type 0 where
  pub jobs_sound : All IsSoundJob db.jobs
  pub workers_sound : All IsSoundWorker db.workers
  pub ids_differ : Differ (λ (w : Worker). w.id) db.workers
  pub keys_differ : KeysDiffer db.jobs
  pub numbered : IsNumbered db.history
  pub fenced : All (IsFenced db.workers) db.jobs
