-- ===== src/Agent.antt =====
-- The worker agent, cmd/worker-agent/main.go: agentState and its methods, what the receive loop does
-- with a response, what a heartbeat says, and what is reported of an execution.
pub mod Invariant
pub mod Draining
pub mod Executor
pub mod HandOver
pub mod Startup
pub mod FirstBeat
use fleetforge.Base.{
  ℕ, ◌*◌, zero, suc, String, Bool, true, false, not, ◌&&◌, Option, none, some, is_some,
  if◌then◌else◌,
}
use fleetforge.Base.Int.{ℤ, pos, negsuc}
use fleetforge.Schema.{Uuid}
use fleetforge.JobStore.Backoff.{second}
use fleetforge.WorkerStore.Register.{default_slots}
use fleetforge.Grpc.Proto.{
  ProtoWorkerStatus, ProtoJobStatus, JobAssignment, HeartbeatRequest, HeartbeatResponse,
  ReportJobResultRequest, ReportJobResultResponse,
}

-- `current_job_id` is `none` where the text is empty.
pub record AgentState : Type 0 where
  pub status : ProtoWorkerStatus
  pub current_job_id : Option Uuid
  pub available_capacity : ℤ
  pub draining : Bool

-- What main starts with, for the configured CapacitySlots.
unfoldable pub initial_state : ℤ → AgentState
initial_state slots = record {
  status = ProtoWorkerStatus.ready;
  current_job_id = none;
  available_capacity = pos (default_slots slots);
  draining = false;
}

-- `if heartbeatInterval <= 0 { heartbeatInterval = 5 * time.Second }`, in nanoseconds.
unfoldable pub heartbeat_interval : ℤ → ℕ
heartbeat_interval (pos zero) = 5 * second
heartbeat_interval (pos (suc n)) = suc n * second
heartbeat_interval (negsuc n) = 5 * second

unfoldable pub start_job : Uuid → AgentState → AgentState
start_job jid a = record a {
  status = ProtoWorkerStatus.busy;
  current_job_id = some jid;
  available_capacity = pos 0;
}

unfoldable pub finish_job : ℕ → AgentState → AgentState
finish_job slots a = record a {
  status = if a.draining then ProtoWorkerStatus.draining else ProtoWorkerStatus.ready;
  current_job_id = none;
  available_capacity = pos slots;
}

abbrev pub is_busy : AgentState → Bool
is_busy a = is_some a.current_job_id

-- The state, without the result that only decides whether a line is logged.
unfoldable pub set_draining : AgentState → AgentState
set_draining a = record a {
  draining = true;
  status = if is_busy a then a.status else ProtoWorkerStatus.draining;
}

unfoldable pub clear_draining : AgentState → AgentState
clear_draining a = record a {
  draining = false;
  status = if a.draining && not (is_busy a) then ProtoWorkerStatus.ready else a.status;
}

-- The assignment that is executed, if any: a busy or draining agent ignores it.
unfoldable pub accepted : AgentState → Option JobAssignment → Option JobAssignment
accepted a none = none
accepted a (some x) = if is_busy a then none else if a.draining then none else some x

unfoldable pub start_accepted : Option JobAssignment → AgentState → AgentState
start_accepted none a = a
start_accepted (some x) a = start_job x.job_id a

unfoldable pub follow_drain : Bool → AgentState → AgentState
follow_drain requested a = if requested then set_draining a else clear_draining a

-- One round of the receive loop.
unfoldable pub receive : HeartbeatResponse → AgentState → AgentState × Option JobAssignment
receive resp a =
    let started = accepted a resp.assignment in
    (follow_drain resp.drain_requested (start_accepted started a), started)

-- One tick of the send loop.
unfoldable pub heartbeat : Uuid → ℕ → AgentState → HeartbeatRequest
heartbeat wid e a = record {
  worker_id = some wid;
  epoch = e;
  status = a.status;
  current_job_id = a.current_job_id;
  available_capacity = a.available_capacity;
}

-- agentruntime.Result, without the exit code that the scheduler only logs.
pub record ExecutionResult : Type 0 where
  pub success : Bool
  pub log_ref : String
  pub error_message : String

-- The report of runAssignment. Whatever comes back, finishJob follows.
unfoldable pub report_of : JobAssignment → ExecutionResult → ReportJobResultRequest
report_of x result = record {
  job_id = some x.job_id;
  assignment_epoch = x.assignment_epoch;
  status = if result.success then ProtoJobStatus.success else ProtoJobStatus.failed;
  log_ref = result.log_ref;
  error_message = result.error_message;
}
