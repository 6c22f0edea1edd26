-- ===== src/Api/Listing.antt =====
-- The reading handlers: ListWorkers, internal/api/handlers_workers.go, GetJob and ListJobs,
-- internal/api/handlers_jobs.go. A reply is a status code with the rows that its body renders.
use fleetforge.Base.{ℕ, Option, List, [], ◌∷◌}
use fleetforge.Base.Int.{pos}
use fleetforge.Schema.{Uuid, WorkerStatus, Worker, Job}
use fleetforge.World.{Result, ok, err, Action, pure, attempt, ◌>>=◌}
use fleetforge.JobStore.Create.{get, ListJobsFilter, list_jobs}
use fleetforge.WorkerStore.Drain.{list_workers}

unfoldable pub workers_listed : Result (List Worker) → Action (ℕ × List Worker)
workers_listed (err e) = pure (500, [])
workers_listed (ok rows) = pure (200, rows)

-- The `status` parameter is `none` where it is empty.
unfoldable pub serve_workers : Option WorkerStatus → Action (ℕ × List Worker)
serve_workers status = do rows ← attempt (list_workers status (pos 100)); workers_listed rows

unfoldable pub job_found : Result Job → Action (ℕ × List Job)
job_found (err e) = pure (404, [])
job_found (ok j) = pure (200, j ∷ [])

unfoldable pub serve_job : Uuid → Action (ℕ × List Job)
serve_job jid = do j ← attempt (get jid); job_found j

unfoldable pub jobs_listed : Result (List Job) → Action (ℕ × List Job)
jobs_listed (err e) = pure (500, [])
jobs_listed (ok jobs) = pure (200, jobs)

-- The handler's limit is 100, whatever the filter says.
unfoldable pub serve_jobs : ListJobsFilter → Action (ℕ × List Job)
serve_jobs f = do jobs ← attempt (list_jobs (record f { limit = pos 100 })); jobs_listed jobs
