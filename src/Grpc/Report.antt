-- ===== src/Grpc/Report.antt =====
-- ReportJobResult, internal/grpcserver/report_result.go, without its metrics.
use fleetforge.Base.{ℕ, true, false, Option, none, some, if◌then◌else◌}
use fleetforge.Base.Int.{pos}
use fleetforge.Schema.{Uuid, Instant, WorkerStatus, Job, JobStatus, failed, job_status_eq}
use fleetforge.World.{
  Result, ok, err, invalid_argument, not_found, internal, Action, pure, throw, attempt, ◌>>=◌, ◌>>◌,
}
use fleetforge.WorkerStore.Assign.{free_worker}
use fleetforge.JobStore.Create.{get}
use fleetforge.JobStore.Transitions.{complete, retry_or_fail}
use fleetforge.RedisStore.Cache.{set_state}
use fleetforge.Scheduler.Loop.{ignore}
use fleetforge.Grpc.Proto.{ReportJobResultRequest, ReportJobResultResponse, job_status_to_db}
use fleetforge.Grpc.Heartbeat.{unix}

abbrev pub or_error : {A : Type 0} → Result A → Action A → Action A
or_error (ok a) failure = pure a
or_error (err e) failure = failure

-- The final status, or `none` where the stores discarded the report.
unfoldable pub record_result :
    Instant → Job → ReportJobResultRequest → JobStatus → Action (Option JobStatus)
record_result now j req status =
    if job_status_eq status failed
    then (do
      r ← attempt (
          retry_or_fail now j.id j.created_at req.assignment_epoch j.worker_id req.error_message
            req.log_ref)
      or_error r (throw internal))
    else (do
      r ← attempt (complete now j.id j.created_at req.assignment_epoch status req.log_ref)
      done ← or_error r (throw internal)
      pure (if done then some status else none))

unfoldable pub mirror_freed :
    Instant → Uuid → ℕ → Result (Option (ℕ × WorkerStatus)) → Action (Unit {0})
mirror_freed now wid e (err x) = pure tt
mirror_freed now wid e (ok none) = pure tt
mirror_freed now wid e (ok (some (capacity, status))) = ignore (
    set_state wid (record {
      epoch = e;
      status = status;
      current_job_id = none;
      available_capacity = pos capacity;
      last_pg_flush_unix = unix now;
    }))

unfoldable pub release_worker : Instant → ℕ → Option Uuid → Action (Unit {0})
release_worker now e none = pure tt
release_worker now e (some wid) = do
  freed ← attempt (free_worker wid e)
  mirror_freed now wid e freed

unfoldable pub respond :
    Instant → Job → ReportJobResultRequest → Option JobStatus → Action ReportJobResultResponse
respond now j req none = pure (record { acknowledged = true; discarded_stale_epoch = true })
respond now j req (some status) = do
  release_worker now req.assignment_epoch j.worker_id
  pure (record { acknowledged = true; discarded_stale_epoch = false })

unfoldable pub report_of :
    Instant → ReportJobResultRequest → Option Uuid → Action ReportJobResultResponse
report_of now req none = throw invalid_argument
report_of now req (some jid) = do
  r ← attempt (get jid)
  j ← or_error r (throw not_found)
  outcome ← record_result now j req (job_status_to_db req.status)
  respond now j req outcome

unfoldable pub report_job_result : Instant → ReportJobResultRequest → Action ReportJobResultResponse
report_job_result now req = report_of now req req.job_id
