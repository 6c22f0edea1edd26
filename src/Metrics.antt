-- ===== src/Metrics.antt =====
-- The gauges of internal/metrics and the Collector that sets them, internal/metrics/collector.go.
pub mod Totals
use fleetforge.Base.{
  ℕ, zero, suc, ◌+◌, ◌<◌, ◌≡◌, refl, ap, ◌∙◌, Bool, true, false, ◌&&◌, ◌==◌, ltb, List, [], ◌∷◌,
  arith, length, count, All, Bool-cases, inl, inr, if◌then◌else◌,
}
use fleetforge.Schema.{
  WorkerStatus, registering, ready, busy, draining, offline, dead, JobStatus, queued,
  worker_status_eq, job_status_eq, Worker, Job, Db,
}
use fleetforge.World.{World, Result, ok, err, Action, pure, attempt, ◌>>=◌}
use fleetforge.JobStore.Create.{count_queued_by_priority}
use fleetforge.WorkerStore.Drain.{count_by_status}

-- JobsQueued and WorkersByStatus, at their labels.
pub record Gauges : Type 0 where
  pub jobs_queued : ℕ → ℕ
  pub workers_by_status : WorkerStatus → ℕ

-- The loop sets the labels from 0 to 9.
unfoldable pub set_jobs_queued : Result (ℕ → ℕ) → Gauges → Gauges
set_jobs_queued (err e) g = g
set_jobs_queued (ok by_priority) g = record g {
  jobs_queued = λ p. if ltb p 10 then by_priority p else g.jobs_queued p;
}

unfoldable pub set_workers : Result (WorkerStatus → ℕ) → Gauges → Gauges
set_workers (err e) g = g
set_workers (ok by_status) g = record g { workers_by_status = by_status }

unfoldable pub collect : Gauges → Action Gauges
collect g = do
  queued_by_priority ← attempt count_queued_by_priority
  by_status ← attempt count_by_status
  pure (set_workers by_status (set_jobs_queued queued_by_priority g))
