-- ===== src/Consistency/Handlers.antt =====
-- The gRPC and REST handlers keep what the stores keep, whichever of their calls fail.
use fleetforge.Base.{ℕ, ◌≡◌, Bool, true, false, Option, none, some, arith, not, ◌==◌, str_eq, ◌||◌}
use fleetforge.Schema.{
  Uuid, Instant, Db, Job, JobStatus, failed, WorkerStatus, job_status_eq, worker_status_eq, busy,
  is_live,
}
use fleetforge.World.{Result, ok, err, Error, not_found, internal, aborted, invalid_argument, throw}
use fleetforge.Effects.{
  Keeps, Keeps-statement, Keeps-command, Keeps-pure, Keeps-throw, Keeps-attempt, Keeps-bind,
  Keeps-if,
}
use fleetforge.Consistency.Operations.{StoreKeeps}
use fleetforge.Consistency.Jobs.{is_final}
use fleetforge.RedisStore.Cache.{set_drain_requested, get_state, set_alive}
use fleetforge.Consistency.Loops.{ignore-Keeps, set_state-Keeps, enqueue-Keeps, get-Keeps}
use fleetforge.WorkerStore.Liveness.{get_epoch_and_status}
use fleetforge.RedisStore.Cache.{CachedState}
use fleetforge.WorkerStore.Register.{RegisterWorkerParams}
use fleetforge.WorkerStore.Drain.{DrainResult}
use fleetforge.Grpc.Proto.{
  HeartbeatRequest, ReportJobResultRequest, job_status_to_db, ProtoJobStatus,
}
use fleetforge.Grpc.Register.{is_invalid, register_worker}
use fleetforge.Grpc.Heartbeat.{
  Known, known_from_db, fall_back, known_from_cache, pushable, pending_assignment, confirm_running,
  must_flush, flush, accept, heartbeat_of, handle_heartbeat,
}
use fleetforge.Grpc.Report.{
  or_error, record_result, mirror_freed, release_worker, respond, report_of, report_job_result,
}
use fleetforge.Api.Handlers.{
  SubmitJobRequest, out_of_range, submitted, submit_job, sync_drain_to_cache, drain_reply,
  drain_worker, resume_worker,
}

job_status_to_db-final :
    (s : ProtoJobStatus)
    → job_status_eq (job_status_to_db s) failed ≡ false
    → is_final (job_status_to_db s) ≡ true
unfolding job_status_to_db
job_status_to_db-final s h = ground arith

module _ (I : Db → Type 0) (kept : StoreKeeps I) where
  known_from_db-Keeps : (r : Result (ℕ × WorkerStatus × Bool)) → Keeps I (known_from_db r)
  unfolding known_from_db
  known_from_db-Keeps (err e) = Keeps-throw not_found
  known_from_db-Keeps (ok (e, s, drain)) =
      Keeps-if (not (is_live s)) (λ _. Keeps-throw not_found) (λ _. Keeps-pure _)

  fall_back-Keeps : (wid : Uuid) → Keeps I (fall_back wid)
  unfolding fall_back
  fall_back-Keeps wid =
      Keeps-bind (Keeps-attempt (unfold get_epoch_and_status in Keeps-statement _ (λ db c. c)))
        known_from_db-Keeps

  known_from_cache-Keeps :
      (wid : Uuid) (r : Result (Option CachedState)) → Keeps I (known_from_cache wid r)
  unfolding known_from_cache
  known_from_cache-Keeps wid (ok (some c)) = Keeps-pure _
  known_from_cache-Keeps wid (ok none) = fall_back-Keeps wid
  known_from_cache-Keeps wid (err e) = fall_back-Keeps wid

  pending_assignment-Keeps : (e : ℕ) (o : Option Uuid) → Keeps I (pending_assignment e o)
  unfolding pending_assignment
  pending_assignment-Keeps e none = Keeps-pure none
  pending_assignment-Keeps e (some jid) =
      Keeps-bind (Keeps-attempt (get-Keeps jid)) (λ r. Keeps-pure _)

  confirm_running-Keeps :
      (now : Instant) (e : ℕ) (s : WorkerStatus) (o : Option Uuid)
      → Keeps I (confirm_running now e s o)
  unfolding confirm_running
  confirm_running-Keeps now e s none = Keeps-pure tt
  confirm_running-Keeps now e s (some jid) =
      Keeps-if (worker_status_eq s busy)
        (λ _. Keeps-bind (Keeps-attempt (kept.mark_running_keeps now jid e)) (λ _. Keeps-pure tt))
        (λ _. Keeps-pure tt)

  flush-Keeps :
      (now : Instant) (wid : Uuid) (e : ℕ) (s : WorkerStatus) (jid : Option Uuid)
      (cached : Option CachedState)
      → Keeps I (flush now wid e s jid cached)
  unfolding flush
  flush-Keeps now wid e s jid cached =
      Keeps-if (must_flush now s cached)
        (λ _.
          Keeps-bind (Keeps-attempt (kept.update_heartbeat_keeps now wid e s jid))
            (λ r. Keeps-pure _))
        (λ _. Keeps-pure _)

  accept-Keeps :
      (now : Instant) (timeout_seconds : ℕ) (wid : Uuid) (req : HeartbeatRequest) (known : Known)
      → Keeps I (accept now timeout_seconds wid req known)
  unfolding accept
  accept-Keeps now timeout_seconds wid req known =
      Keeps-if (not (req.epoch == known.epoch)) (λ _. Keeps-throw aborted)
        λ _.
          Keeps-bind
            (pending_assignment-Keeps known.epoch (pushable known.cached req.current_job_id))
            λ assignment.
              Keeps-bind (confirm_running-Keeps now known.epoch _ req.current_job_id) λ _.
                Keeps-bind (flush-Keeps now wid known.epoch _ req.current_job_id known.cached)
                  λ flushed. Keeps-bind (ignore-Keeps (set_state-Keeps wid _)) λ _.
                    Keeps-bind (ignore-Keeps (unfold set_alive in Keeps-command _))
                      (λ _. Keeps-pure _)

  heartbeat_of-Keeps :
      (now : Instant) (timeout_seconds : ℕ) (req : HeartbeatRequest) (o : Option Uuid)
      → Keeps I (heartbeat_of now timeout_seconds req o)
  unfolding heartbeat_of
  heartbeat_of-Keeps now timeout_seconds req none = Keeps-throw invalid_argument
  heartbeat_of-Keeps now timeout_seconds req (some wid) =
      Keeps-bind (Keeps-attempt (unfold get_state in Keeps-command _)) λ cached.
        Keeps-bind (known_from_cache-Keeps wid cached) (accept-Keeps now timeout_seconds wid req)

  pub handle_heartbeat-Keeps :
      (now : Instant) (timeout_seconds : ℕ) (req : HeartbeatRequest)
      → Keeps I (handle_heartbeat now timeout_seconds req)
  unfolding handle_heartbeat
  handle_heartbeat-Keeps now timeout_seconds req =
      heartbeat_of-Keeps now timeout_seconds req req.worker_id

  or_error-Keeps : {A : Type 0} (r : Result A) (e : Error) → Keeps I (or_error r (throw e))
  or_error-Keeps (ok a) e = Keeps-pure a
  or_error-Keeps (err x) e = Keeps-throw e

  record_result-Keeps :
      (now : Instant) (j : Job) (req : ReportJobResultRequest)
      → Keeps I (record_result now j req (job_status_to_db req.status))
  unfolding record_result
  record_result-Keeps now j req =
      Keeps-if (job_status_eq (job_status_to_db req.status) failed)
        (λ _.
          Keeps-bind (Keeps-attempt (kept.retry_or_fail_keeps now _ _ _ _ _ _))
            (λ r. or_error-Keeps r internal))
        λ other.
          Keeps-bind
            (Keeps-attempt
              (kept.complete_keeps now _ _ _ _ _ (job_status_to_db-final req.status other) other))
            λ r. Keeps-bind (or_error-Keeps r internal) (λ done. Keeps-pure _)

  mirror_freed-Keeps :
      (now : Instant) (wid : Uuid) (e : ℕ) (r : Result (Option (ℕ × WorkerStatus)))
      → Keeps I (mirror_freed now wid e r)
  unfolding mirror_freed
  mirror_freed-Keeps now wid e (err x) = Keeps-pure tt
  mirror_freed-Keeps now wid e (ok none) = Keeps-pure tt
  mirror_freed-Keeps now wid e (ok (some (capacity, s))) = ignore-Keeps (set_state-Keeps wid _)

  release_worker-Keeps :
      (now : Instant) (e : ℕ) (o : Option Uuid) → Keeps I (release_worker now e o)
  unfolding release_worker
  release_worker-Keeps now e none = Keeps-pure tt
  release_worker-Keeps now e (some wid) =
      Keeps-bind (Keeps-attempt (kept.free_worker_keeps wid e)) (mirror_freed-Keeps now wid e)

  respond-Keeps :
      (now : Instant) (j : Job) (req : ReportJobResultRequest) (o : Option JobStatus)
      → Keeps I (respond now j req o)
  unfolding respond
  respond-Keeps now j req none = Keeps-pure _
  respond-Keeps now j req (some s) =
      Keeps-bind (release_worker-Keeps now req.assignment_epoch j.worker_id) (λ _. Keeps-pure _)

  report_of-Keeps :
      (now : Instant) (req : ReportJobResultRequest) (o : Option Uuid)
      → Keeps I (report_of now req o)
  unfolding report_of
  report_of-Keeps now req none = Keeps-throw invalid_argument
  report_of-Keeps now req (some jid) = Keeps-bind (Keeps-attempt (get-Keeps jid)) λ r.
      Keeps-bind (or_error-Keeps r not_found)
        λ j. Keeps-bind (record_result-Keeps now j req) (respond-Keeps now j req)

  pub report_job_result-Keeps :
      (now : Instant) (req : ReportJobResultRequest) → Keeps I (report_job_result now req)
  unfolding report_job_result
  report_job_result-Keeps now req = report_of-Keeps now req req.job_id

  pub register_worker-Keeps :
      (interval_seconds timeout_seconds : ℕ) (new_id : Uuid) (now : Instant)
      (p : RegisterWorkerParams)
      → Keeps I (register_worker interval_seconds timeout_seconds new_id now p)
  unfolding register_worker
  register_worker-Keeps interval_seconds timeout_seconds new_id now p =
      Keeps-if (is_invalid p) (λ _. Keeps-throw invalid_argument)
        λ _. Keeps-bind (Keeps-attempt (kept.register_keeps new_id now p)) λ r.
          Keeps-bind (or_error-Keeps r internal)
            λ registered. Keeps-bind (ignore-Keeps (set_state-Keeps _ _)) (λ _. Keeps-pure _)

  submitted-Keeps : (r : Result (Job × Bool)) → Keeps I (submitted r)
  unfolding submitted
  submitted-Keeps (err e) = Keeps-pure _
  submitted-Keeps (ok (j, true)) = Keeps-pure _
  submitted-Keeps (ok (j, false)) = Keeps-bind (ignore-Keeps (enqueue-Keeps _)) (λ _. Keeps-pure _)

  pub submit_job-Keeps :
      (new_id : Uuid) (now : Instant) (req : Option SubmitJobRequest)
      → Keeps I (submit_job new_id now req)
  unfolding submit_job
  submit_job-Keeps new_id now none = Keeps-pure _
  submit_job-Keeps new_id now (some req) =
      Keeps-if (str_eq req.repository "" || str_eq req.branch "" || str_eq req.commit_sha "")
        (λ _. Keeps-pure _)
        λ _.
          Keeps-if (out_of_range req.priority) (λ _. Keeps-pure _)
            λ _. Keeps-bind (Keeps-attempt (kept.create_keeps new_id now _)) submitted-Keeps

  drain_reply-Keeps :
      (wid : Uuid) (drain : Bool) (r : Result (Option DrainResult))
      → Keeps I (drain_reply wid drain r)
  unfolding drain_reply sync_drain_to_cache
  drain_reply-Keeps wid drain (err e) = Keeps-pure _
  drain_reply-Keeps wid drain (ok none) = Keeps-pure _
  drain_reply-Keeps wid drain (ok (some r)) =
      Keeps-bind
        (Keeps-bind (ignore-Keeps (set_state-Keeps wid _))
          (λ _. ignore-Keeps (unfold set_drain_requested in Keeps-command _)))
        (λ _. Keeps-pure _)

  pub drain_worker-Keeps : (wid : Uuid) → Keeps I (drain_worker wid)
  unfolding drain_worker
  drain_worker-Keeps wid =
      Keeps-bind (Keeps-attempt (kept.request_drain_keeps wid)) (drain_reply-Keeps wid true)

  pub resume_worker-Keeps : (wid : Uuid) → Keeps I (resume_worker wid)
  unfolding resume_worker
  resume_worker-Keeps wid =
      Keeps-bind (Keeps-attempt (kept.resume_drain_keeps wid)) (drain_reply-Keeps wid false)
