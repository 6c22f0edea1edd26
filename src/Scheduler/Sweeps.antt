-- ===== src/Scheduler/Sweeps.antt =====
-- The dead-worker reaper, internal/scheduler/reaper.go, and the retry poller,
-- internal/scheduler/retrypoller.go: the bodies of their leader-gated loops.
use fleetforge.Base.{ℕ, Bool, true, false, List}
use fleetforge.Base.Int.{pos}
use fleetforge.Schema.{Instant, Job}
use fleetforge.World.{Result, ok, err, Action, pure, attempt, for_each, ◌>>=◌}
use fleetforge.WorkerStore.Liveness.{StaleWorker, list_stale, mark_dead_and_requeue}
use fleetforge.JobStore.Transitions.{list_due_retries, mark_queued_from_retry}
use fleetforge.RedisStore.Cache.{delete}
use fleetforge.RedisStore.Queue.{enqueue}
use fleetforge.Scheduler.Loop.{ignore}

-- `continue` on an error, else clear the cache.
unfoldable pub after_marking : StaleWorker → Result (Unit {0}) → Action (Unit {0})
after_marking w (err e) = pure tt
after_marking w (ok _) = ignore (delete w.id)

unfoldable pub reap : Instant → StaleWorker → Action (Unit {0})
reap now w = do marked ← attempt (mark_dead_and_requeue now w.id w.epoch); after_marking w marked

unfoldable pub sweep_all : Instant → Result (List StaleWorker) → Action (Unit {0})
sweep_all now (err e) = pure tt
sweep_all now (ok stale) = for_each stale (reap now)

unfoldable pub sweep : Instant → ℕ → Action (Unit {0})
sweep now timeout_seconds = do stale ← attempt (list_stale now timeout_seconds); sweep_all now stale

unfoldable pub after_claim : Job → Result Bool → Action (Unit {0})
after_claim j (err e) = pure tt
after_claim j (ok false) = pure tt
after_claim j (ok true) = ignore (
    enqueue (record {
      job_id = j.id;
      priority = j.priority;
      required_capabilities = j.required_capabilities;
    }))

unfoldable pub claim : Job → Action (Unit {0})
claim j = do claimed ← attempt (mark_queued_from_retry j.id j.created_at); after_claim j claimed

unfoldable pub poll_all : Result (List Job) → Action (Unit {0})
poll_all (err e) = pure tt
poll_all (ok due) = for_each due claim

unfoldable pub poll : Instant → Action (Unit {0})
poll now = do due ← attempt (list_due_retries now (pos 100)); poll_all due
