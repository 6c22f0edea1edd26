-- ===== src/Examples/Lives.antt =====
-- The theorems on whole runs, followed along one job, at concrete inputs.
use fleetforge.Base.{◌≡◌, ◌≢◌, refl, true, some, [], ◌∷◌, arith, query_row}
use fleetforge.Base.Int.{pos}
use mathlib.Core.List.Memᴰ
use fleetforge.Schema.{Worker, failed}
use fleetforge.World.{Message}
use fleetforge.WorkerStore.Assign.{is_candidate, contains_all, mem_text}
use fleetforge.Scheduler.Loop.{process_message}
use fleetforge.Scheduler.Matching.{calm}
use fleetforge.Scheduler.Autoscaler.{tick}
use fleetforge.Scheduler.Pacing.{IsPaced, tick-IsPaced}
use fleetforge.Scheduler.Reaching.{IsMatched, StartsOnBeat, process_message-IsMatched}
use fleetforge.Consistency.Row.{HasRow}
use fleetforge.Consistency.Forever.{HasJob}
use fleetforge.Consistency.Lifecycle.{HasLived, run-HasLived, phase_of, spec_of}
use fleetforge.Consistency.Lifecycle.Retried.{IsRetried, run-IsRetried}
use fleetforge.Consistency.Runs.{Cluster, run}
use fleetforge.Examples.Fleet.{worker, fleet, fleet-IsConsistent, waiting_job, fractions}
use fleetforge.Examples.Clients.{idle}
use fleetforge.Examples.Services.{history, timing, thresholds, fresh_cluster}

-- The fleet with its waiting job, a further worker and a further job, and the loops.
abbrev busy_cluster : Cluster
busy_cluster = record fresh_cluster { world = fleet }

waiting_job-HasJob : HasJob waiting_job fleet.db
unfolding query_row
waiting_job-HasJob = record { only = ((λ own. refl), tt); there = refl }

run-HasLived_example :
    HasRow
      (HasLived waiting_job)
      (run fractions thresholds timing history busy_cluster).world.db.jobs
run-HasLived_example =
    run-HasLived fractions thresholds timing waiting_job history busy_cluster waiting_job-HasJob

waits : waiting_job.status ≢ failed
waits e = cc

run-IsRetried_example :
    HasRow
      (λ k. (spec_of k ≡ spec_of waiting_job) × IsRetried (pos 0) (pos 3) (phase_of k))
      (run fractions thresholds timing history busy_cluster).world.db.jobs
run-IsRetried_example =
    run-IsRetried fractions thresholds timing waiting_job history busy_cluster waiting_job-HasJob
      (omega arith) (omega arith) waits

-- The entry of the waiting job, and two agents that wait for work.
abbrev entry : Message
entry = record { number = 1; job_id = some 5; required_capabilities = "docker" ∷ [] }

docker_fits : is_candidate ("docker" ∷ []) (worker 7 2 2) ≡ true
unfolding contains_all mem_text
docker_fits = refl

process_message-IsMatched_example :
    (v : Worker) × IsMatched 3 entry waiting_job v fleet.db
      (process_message fractions (3, entry) (calm fleet.redis fleet.db 0)).1
    × StartsOnBeat 200 20 v waiting_job idle
        (process_message fractions (3, entry) (calm fleet.redis fleet.db 0)).1
process_message-IsMatched_example =
    process_message-IsMatched fractions 3 entry 5 waiting_job fleet.redis fleet.db 0 200 20
      (λ u. idle) (worker 7 2 2) fleet-IsConsistent refl (unfold query_row in refl) refl
      (Memᴰ.head refl) docker_fits (λ u. refl) (λ u. refl)

tick-IsPaced_example :
    IsPaced fractions thresholds 700_000_000_000 fresh_cluster.autoscaler fleet.db
      (tick fractions thresholds 700_000_000_000 fresh_cluster.autoscaler fleet)
tick-IsPaced_example =
    tick-IsPaced fractions thresholds 700_000_000_000 fresh_cluster.autoscaler fleet
