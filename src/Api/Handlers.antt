-- ===== src/Api/Handlers.antt =====
-- The state-changing REST handlers, internal/api/handlers_jobs.go and handlers_workers.go. A reply is
-- its HTTP status, with what the body is built from.
use fleetforge.Base.{
  ℕ, Bool, true, false, ◌||◌, Option, none, some, String, List, str_eq, if◌then◌else◌,
}
use fleetforge.Base.Int.{ℤ, pos, ltb_ℤ}
use fleetforge.Schema.{Uuid, Instant, Job}
use fleetforge.World.{Result, ok, err, Action, pure, attempt, ◌>>=◌, ◌>>◌}
use fleetforge.WorkerStore.Drain.{DrainResult, request_drain, resume_drain}
use fleetforge.JobStore.Create.{CreateJobParams, create}
use fleetforge.RedisStore.Cache.{set_state, set_drain_requested}
use fleetforge.RedisStore.Queue.{enqueue}
use fleetforge.Scheduler.Loop.{ignore}

-- submitJobRequest.
pub record SubmitJobRequest : Type 0 where
  pub priority : Option ℤ
  pub repository : String
  pub branch : String
  pub commit_sha : String
  pub labels : List (String × String)
  pub required_capabilities : List String
  pub max_retries : ℤ
  pub idempotency_key : String

abbrev pub Reply : Type 0
Reply = ℕ × Option Job

abbrev pub out_of_range : Option ℤ → Bool
out_of_range none = false
out_of_range (some p) = ltb_ℤ p (pos 0) || ltb_ℤ (pos 9) p

abbrev priority_of : Option ℤ → ℤ
priority_of none = pos 5
priority_of (some p) = p

abbrev pub to_params : SubmitJobRequest → CreateJobParams
to_params req = record {
  priority = priority_of req.priority;
  repository = req.repository;
  branch = req.branch;
  commit_sha = req.commit_sha;
  labels = req.labels;
  required_capabilities = req.required_capabilities;
  max_retries = req.max_retries;
  idempotency_key = req.idempotency_key;
}

unfoldable pub submitted : Result (Job × Bool) → Action Reply
submitted (err e) = pure (500, none)
submitted (ok (j, true)) = pure (409, some j)
submitted (ok (j, false)) = do
  ignore (
      enqueue (record {
        job_id = j.id;
        priority = j.priority;
        required_capabilities = j.required_capabilities;
      }))
  pure (202, some j)

-- SubmitJob; `none` is a body that is no JSON of the request's form.
unfoldable pub submit_job : Uuid → Instant → Option SubmitJobRequest → Action Reply
submit_job new_id now none = pure (400, none)
submit_job new_id now (some req) =
    if str_eq req.repository "" || str_eq req.branch "" || str_eq req.commit_sha ""
    then pure (400, none)
    else if out_of_range req.priority
    then pure (400, none)
    else do created ← attempt (create new_id now (to_params req)); submitted created

-- syncDrainToCache: two writes of disjoint fields.
unfoldable pub sync_drain_to_cache : Uuid → DrainResult → Bool → Action (Unit {0})
sync_drain_to_cache wid r drain = do
  ignore (
      set_state wid (record {
        epoch = r.epoch;
        status = r.status;
        current_job_id = r.current_job_id;
        available_capacity = pos r.available_capacity;
        last_pg_flush_unix = 0;
      }))
  ignore (set_drain_requested wid drain)

unfoldable pub drain_reply : Uuid → Bool → Result (Option DrainResult) → Action ℕ
drain_reply wid drain (err e) = pure 500
drain_reply wid drain (ok none) = pure 404
drain_reply wid drain (ok (some r)) = do sync_drain_to_cache wid r drain; pure 200

unfoldable pub drain_worker : Uuid → Action ℕ
drain_worker wid = do r ← attempt (request_drain wid); drain_reply wid true r

unfoldable pub resume_worker : Uuid → Action ℕ
resume_worker wid = do r ← attempt (resume_drain wid); drain_reply wid false r
