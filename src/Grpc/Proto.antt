-- ===== src/Grpc/Proto.antt =====
-- The messages of proto/fleetforge/v1 that the handlers read and write. An id is `none` where the
-- text is empty; a text that is no UUID makes the Postgres call fail.
use fleetforge.Base.{ℕ, String, Bool, Option}
use fleetforge.Base.Int.{ℤ}
use fleetforge.Schema.{Uuid, WorkerStatus, JobStatus}

-- enum WorkerStatus, `unrecognized` for a number that the enum does not name.
pub data ProtoWorkerStatus : Type 0 where
  unspecified registering ready busy draining offline dead unrecognized : ProtoWorkerStatus

-- enum JobStatus.
pub data ProtoJobStatus : Type 0 where
  unspecified queued assigned running success failed retrying cancelled unrecognized :
      ProtoJobStatus

pub record HeartbeatRequest : Type 0 where
  pub worker_id : Option Uuid
  pub epoch : ℕ
  pub status : ProtoWorkerStatus
  pub current_job_id : Option Uuid
  pub available_capacity : ℤ

pub record JobAssignment : Type 0 where
  pub job_id : Uuid
  pub assignment_epoch : ℕ
  pub repository : String
  pub branch : String
  pub commit_sha : String

pub record HeartbeatResponse : Type 0 where
  pub acknowledged : Bool
  pub assignment : Option JobAssignment
  pub drain_requested : Bool

pub record ReportJobResultRequest : Type 0 where
  pub job_id : Option Uuid
  pub assignment_epoch : ℕ
  pub status : ProtoJobStatus
  pub log_ref : String
  pub error_message : String

pub record ReportJobResultResponse : Type 0 where
  pub acknowledged : Bool
  pub discarded_stale_epoch : Bool

pub record RegisterWorkerResponse : Type 0 where
  pub worker_id : Uuid
  pub epoch : ℕ
  pub heartbeat_interval_seconds : ℕ
  pub heartbeat_timeout_seconds : ℕ

-- workerStatusToDB, internal/grpcserver/heartbeat.go.
unfoldable pub worker_status_to_db : ProtoWorkerStatus → WorkerStatus
worker_status_to_db ProtoWorkerStatus.ready = WorkerStatus.ready
worker_status_to_db ProtoWorkerStatus.busy = WorkerStatus.busy
worker_status_to_db ProtoWorkerStatus.draining = WorkerStatus.draining
worker_status_to_db ProtoWorkerStatus.offline = WorkerStatus.offline
worker_status_to_db ProtoWorkerStatus.dead = WorkerStatus.dead
worker_status_to_db _ = WorkerStatus.registering

-- jobStatusToDB, internal/grpcserver/report_result.go.
unfoldable pub job_status_to_db : ProtoJobStatus → JobStatus
job_status_to_db ProtoJobStatus.success = JobStatus.success
job_status_to_db ProtoJobStatus.cancelled = JobStatus.cancelled
job_status_to_db _ = JobStatus.failed
