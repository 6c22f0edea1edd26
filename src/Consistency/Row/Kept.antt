-- ===== src/Consistency/Row/Kept.antt =====
-- A property of one row that every change keeps, kept by every operation of the two stores.
use fleetforge.Schema.{Job}
use fleetforge.WorkerStore.Drain.{request_drain, resume_drain}
use fleetforge.Consistency.Operations.{StoreKeeps}
use fleetforge.Consistency.Row.{HasRow, HasRowIn, Allows}
use fleetforge.Consistency.Row.Stores.{
  register-Keeps, update_heartbeat-Keeps, free_worker-Keeps, drain_transaction-Keeps,
}
use fleetforge.Consistency.Row.Jobs.{
  mark_running-Keeps, complete-Keeps, mark_queued_from_retry-Keeps, assign_job-Keeps, create-Keeps,
}
use fleetforge.Consistency.Row.Requeues.{mark_dead_and_requeue-Keeps}
use fleetforge.Consistency.Row.Retries.{retry_or_fail-Keeps}

pub HasRow-StoreKeeps : (P : Job → Type 0) → Allows P → StoreKeeps (HasRowIn P)
unfolding request_drain resume_drain
HasRow-StoreKeeps P allowed = record {
  register_keeps = register-Keeps (HasRow P);
  update_heartbeat_keeps = update_heartbeat-Keeps (HasRow P);
  mark_dead_and_requeue_keeps = mark_dead_and_requeue-Keeps P allowed;
  assign_job_keeps = assign_job-Keeps P allowed;
  free_worker_keeps = free_worker-Keeps (HasRow P);
  request_drain_keeps = λ wid. drain_transaction-Keeps (HasRow P) wid _ _;
  resume_drain_keeps = λ wid. drain_transaction-Keeps (HasRow P) wid _ _;
  create_keeps = create-Keeps P allowed;
  mark_running_keeps = mark_running-Keeps P allowed;
  complete_keeps = complete-Keeps P allowed;
  retry_or_fail_keeps = λ now jid created e. retry_or_fail-Keeps P allowed jid created now e;
  mark_queued_from_retry_keeps = mark_queued_from_retry-Keeps P allowed;
}
