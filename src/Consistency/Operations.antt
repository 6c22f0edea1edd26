-- ===== src/Consistency/Operations.antt =====
-- What the operations of the two stores have to keep for the whole scheduler to keep it.
use fleetforge.Base.{ℕ, ◌≡◌, true, false, Option, String}
use fleetforge.Schema.{Uuid, Instant, WorkerStatus, JobStatus, failed, job_status_eq, Db}
use fleetforge.Effects.{Keeps}
use fleetforge.WorkerStore.Register.{RegisterWorkerParams, register}
use fleetforge.WorkerStore.Liveness.{update_heartbeat, mark_dead_and_requeue}
use fleetforge.WorkerStore.Assign.{assign_job, free_worker}
use fleetforge.WorkerStore.Drain.{request_drain, resume_drain}
use fleetforge.JobStore.Create.{CreateJobParams, create}
use fleetforge.JobStore.Transitions.{mark_running, complete, retry_or_fail, mark_queued_from_retry}
use fleetforge.Consistency.{IsConsistent}
use fleetforge.Consistency.Registration.{register-IsConsistent}
use fleetforge.Consistency.Workers.{
  update_heartbeat-IsConsistent, mark_dead_and_requeue-IsConsistent, free_worker-IsConsistent,
  request_drain-IsConsistent, resume_drain-IsConsistent,
}
use fleetforge.Consistency.Assignment.{assign_job-IsConsistent}
use fleetforge.Consistency.Jobs.{
  is_final, create-IsConsistent, mark_running-IsConsistent, complete-IsConsistent,
  mark_queued_from_retry-IsConsistent,
}
use fleetforge.Consistency.Retries.{retry_or_fail-IsConsistent}

pub record StoreKeeps (I : Db → Type 0) : Type 0 where
  pub register_keeps :
      (new_id : Uuid) (now : Instant) (p : RegisterWorkerParams) → Keeps I (register new_id now p)
  pub update_heartbeat_keeps :
      (now : Instant) (wid : Uuid) (e : ℕ) (s : WorkerStatus) (jid : Option Uuid)
      → Keeps I (update_heartbeat now wid e s jid)
  pub mark_dead_and_requeue_keeps :
      (now : Instant) (wid : Uuid) (e : ℕ) → Keeps I (mark_dead_and_requeue now wid e)
  pub assign_job_keeps :
      (jid : Uuid) (created : Instant) (wid : Uuid) (e : ℕ) → Keeps I (assign_job jid created wid e)
  pub free_worker_keeps : (wid : Uuid) (e : ℕ) → Keeps I (free_worker wid e)
  pub request_drain_keeps : (wid : Uuid) → Keeps I (request_drain wid)
  pub resume_drain_keeps : (wid : Uuid) → Keeps I (resume_drain wid)
  pub create_keeps :
      (new_id : Uuid) (now : Instant) (p : CreateJobParams) → Keeps I (create new_id now p)
  pub mark_running_keeps : (now : Instant) (jid : Uuid) (e : ℕ) → Keeps I (mark_running now jid e)
  pub complete_keeps :
      (now : Instant) (jid : Uuid) (created : Instant) (e : ℕ) (s : JobStatus) (log_ref : String)
      → is_final s ≡ true
      → job_status_eq s failed ≡ false
      → Keeps I (complete now jid created e s log_ref)
  pub retry_or_fail_keeps :
      (now : Instant) (jid : Uuid) (created : Instant) (e : ℕ) (wid : Option Uuid)
      (message log_ref : String)
      → Keeps I (retry_or_fail now jid created e wid message log_ref)
  pub mark_queued_from_retry_keeps :
      (jid : Uuid) (created : Instant) → Keeps I (mark_queued_from_retry jid created)

pub IsConsistent-StoreKeeps : StoreKeeps IsConsistent
IsConsistent-StoreKeeps = record {
  register_keeps = register-IsConsistent;
  update_heartbeat_keeps = update_heartbeat-IsConsistent;
  mark_dead_and_requeue_keeps = mark_dead_and_requeue-IsConsistent;
  assign_job_keeps = assign_job-IsConsistent;
  free_worker_keeps = free_worker-IsConsistent;
  request_drain_keeps = request_drain-IsConsistent;
  resume_drain_keeps = resume_drain-IsConsistent;
  create_keeps = create-IsConsistent;
  mark_running_keeps = mark_running-IsConsistent;
  complete_keeps = λ now jid created e s log_ref final _.
      complete-IsConsistent now jid created e s log_ref final;
  retry_or_fail_keeps = retry_or_fail-IsConsistent;
  mark_queued_from_retry_keeps = mark_queued_from_retry-IsConsistent;
}
