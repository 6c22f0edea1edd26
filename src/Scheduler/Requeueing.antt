-- ===== src/Scheduler/Requeueing.antt =====
-- What the reaper's sweep does to the job queue, internal/scheduler/reaper.go.
use fleetforge.Base.{ℕ, ◌≡◌, List, arith, ◌==◌}
use fleetforge.Schema.{Uuid, Instant, Job}
use fleetforge.World.{World, Result, ok, err, command}
use fleetforge.Effects.Streams.{
  KeepsStreams, KeepsStreams-statement, KeepsStreams-pure, KeepsStreams-if, KeepsStreams-attempt,
  KeepsStreams-begin_func, KeepsStreams-bind, KeepsStreams-for_each,
}
use fleetforge.WorkerStore.Liveness.{
  StaleWorker, list_stale, requeue_job, requeue_all, mark_dead_and_requeue,
}
use fleetforge.RedisStore.Cache.{delete}
use fleetforge.Scheduler.Sweeps.{after_marking, reap, sweep_all, sweep}

delete_keeps : (wid : Uuid) → KeepsStreams (delete wid)
unfolding delete command
delete_keeps wid = record { same = λ w. ground arith }

requeue_job_keeps : (now : Instant) (wid : Uuid) (j : Job) → KeepsStreams (requeue_job now wid j)
unfolding requeue_job
requeue_job_keeps now wid j =
    KeepsStreams-bind (KeepsStreams-statement _)
      (λ _. KeepsStreams-bind (KeepsStreams-statement _) (λ n. KeepsStreams-statement _))

requeue_all_keeps : (now : Instant) (wid : Uuid) (e : ℕ) → KeepsStreams (requeue_all now wid e)
unfolding requeue_all
requeue_all_keeps now wid e = KeepsStreams-bind (KeepsStreams-statement _) (λ js.
    KeepsStreams-bind (KeepsStreams-for_each js (requeue_job_keeps now wid))
      (λ _. KeepsStreams-statement _))

mark_dead_keeps :
    (now : Instant) (wid : Uuid) (e : ℕ) → KeepsStreams (mark_dead_and_requeue now wid e)
unfolding mark_dead_and_requeue
mark_dead_keeps now wid e = KeepsStreams-begin_func (
    KeepsStreams-bind (KeepsStreams-statement _)
      (λ n. KeepsStreams-if (n == 0) (KeepsStreams-pure tt) (requeue_all_keeps now wid e)))

after_marking_keeps : (v : StaleWorker) (r : Result (Unit {0})) → KeepsStreams (after_marking v r)
unfolding after_marking
after_marking_keeps v (err e) = KeepsStreams-pure tt
after_marking_keeps v (ok a) =
    KeepsStreams-bind (KeepsStreams-attempt (delete_keeps v.id)) (λ r. KeepsStreams-pure tt)

reap_keeps : (now : Instant) (v : StaleWorker) → KeepsStreams (reap now v)
unfolding reap
reap_keeps now v =
    KeepsStreams-bind (KeepsStreams-attempt (mark_dead_keeps now v.id v.epoch))
      (after_marking_keeps v)

sweep_all_keeps : (now : Instant) (r : Result (List StaleWorker)) → KeepsStreams (sweep_all now r)
unfolding sweep_all
sweep_all_keeps now (err e) = KeepsStreams-pure tt
sweep_all_keeps now (ok stale) = KeepsStreams-for_each stale (reap_keeps now)

-- A sweep of the reaper, whichever jobs it puts back to QUEUED, adds no entry to any stream of the
-- job queue and removes none.
pub sweep-KeepsStreams :
    (now : Instant) (timeout_seconds : ℕ) (w : World)
    → (sweep now timeout_seconds w).1.redis.streams ≡ w.redis.streams
unfolding sweep list_stale
sweep-KeepsStreams now timeout_seconds =
    (KeepsStreams-bind (KeepsStreams-attempt (KeepsStreams-statement _)) (sweep_all_keeps now)).same
