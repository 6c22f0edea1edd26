-- ===== src/Examples/Services.antt =====
-- The theorems on internal/scheduler and internal/grpcserver and on whole runs, at concrete inputs.
use fleetforge.Base.{ℕ, ◌≡◌, refl, none, some, List, [], ◌∷◌, arith}
use native.Mathlib.Nat.{mul-one, one-mul}
use fleetforge.Base.Int.{pos}
use fleetforge.World.{Message}
use fleetforge.Consistency.{IsConsistent}
use fleetforge.Scheduler.Autoscaler.{AutoscalerConfig}
use fleetforge.Consistency.Runs.{
  Cluster, Timing, Event, registers, reports, submits, schedules, sweeps, run, run-IsConsistent,
  empty_db, empty_db-IsConsistent,
}
use fleetforge.Base.{query_row}
use fleetforge.Schema.{Job, success}
use fleetforge.Consistency.Forever.{HasJob, run-HasJob}
use fleetforge.WorkerStore.Register.{RegisterWorkerParams}
use fleetforge.WorkerStore.Assign.{to_candidate}
use fleetforge.Scheduler.Select.{fraction, select_least_loaded}
use fleetforge.Scheduler.LeastLoaded.{IsChoice, ComparesExactly, select_least_loaded-IsChoice}
use fleetforge.Scheduler.Loop.{process_message}
use fleetforge.Scheduler.Acknowledging.{IsHandled, process_message-IsHandled}
use fleetforge.Grpc.Proto.{
  ReportJobResultRequest, ProtoJobStatus, ProtoWorkerStatus, HeartbeatRequest,
}
use fleetforge.RedisStore.Cache.{read_hash}
use fleetforge.Grpc.Heartbeat.{handle_heartbeat}
use fleetforge.Grpc.Liveness.{IsUnknown, Refused, handle_heartbeat-Refused}
use fleetforge.Scheduler.Sweeps.{sweep}
use fleetforge.Scheduler.Requeueing.{sweep-KeepsStreams}
use fleetforge.Api.Handlers.{SubmitJobRequest}
use fleetforge.Examples.Fleet.{
  worker, world_of, fleet, fleet-IsConsistent, held, held_job, db_with, fractions,
}

abbrev late_report : ReportJobResultRequest
late_report = record {
  job_id = some 5;
  assignment_epoch = 1;
  status = ProtoJobStatus.success;
  log_ref = "";
  error_message = "";
}

fractions-ComparesExactly : ComparesExactly fractions
unfolding fraction
fractions-ComparesExactly c d comparable_c comparable_d slots_c slots_d =
    rw
      (
        mul-one d.available_capacity,
        one-mul c.capacity_slots,
        mul-one c.available_capacity,
        one-mul d.capacity_slots,
      )
      refl

select_least_loaded-IsChoice_example :
    IsChoice (to_candidate (worker 7 2 2) ∷ to_candidate (worker 8 1 4) ∷ []) (
      select_least_loaded fractions
        (to_candidate (worker 7 2 2) ∷ to_candidate (worker 8 1 4) ∷ []))
select_least_loaded-IsChoice_example =
    select_least_loaded-IsChoice fractions fractions-ComparesExactly
      (to_candidate (worker 7 2 2) ∷ to_candidate (worker 8 1 4) ∷ [])
      ((omega arith, omega arith), ((omega arith, omega arith), tt))

abbrev entry : Message
entry = record { number = 1; job_id = some 5; required_capabilities = "docker" ∷ [] }

process_message-IsHandled_example : IsHandled 5 fleet (process_message fractions (3, entry) fleet).1
process_message-IsHandled_example =
    process_message-IsHandled fractions 3 entry 5 fleet refl fleet-IsConsistent

-- A worker joins, a job arrives and is assigned, the worker falls silent and is reaped.
abbrev pub joins : RegisterWorkerParams
joins = record {
  hostname = "build";
  instance_id = "i-1";
  os = "linux";
  cpu_cores = pos 4;
  memory_mb = pos 8192;
  labels = [];
  capabilities = "docker" ∷ [];
  version = "1.0";
  capacity_slots = pos 2;
}

abbrev request : SubmitJobRequest
request = record {
  priority = none;
  repository = "fleetforge";
  branch = "main";
  commit_sha = "abc";
  labels = [];
  required_capabilities = "docker" ∷ [];
  max_retries = pos 3;
  idempotency_key = "";
}

abbrev pub history : List Event
history =
    registers 7 100 joins ∷ submits 5 200 (some request) ∷ schedules ∷ sweeps 60_000_000_000 ∷ []

abbrev pub timing : Timing
timing = record { interval_seconds = 5; timeout_seconds = 20 }

abbrev pub thresholds : AutoscalerConfig (ℕ × ℕ)
thresholds = record {
  scale_up_threshold_per_worker = (5, 1);
  scale_down_threshold_per_worker = (1, 1);
  scale_up_cooldown = 300_000_000_000;
  scale_down_cooldown = 600_000_000_000;
  max_scale_up_fraction = (1, 4);
  trend_window_samples = 3;
}

abbrev pub fresh_cluster : Cluster
fresh_cluster = record {
  world = world_of empty_db;
  autoscaler = record { queue_depth_samples = []; last_scale_up = 0; last_scale_down = 0 };
}

run-IsConsistent_example :
    IsConsistent (run fractions thresholds timing history fresh_cluster).world.db
run-IsConsistent_example =
    run-IsConsistent fractions thresholds timing history fresh_cluster empty_db-IsConsistent

-- A job that has succeeded, while the report of its success is sent again and the loops go on.
abbrev done_job : Job
done_job = record held_job { status = success; finished_at = some 150 }

abbrev after_success : List Event
after_success = reports 200 late_report ∷ schedules ∷ sweeps 60_000_000_000 ∷ history

done_job-HasJob : HasJob done_job (db_with done_job)
unfolding query_row
done_job-HasJob = record { only = ((λ own. refl), tt); there = refl }

run-HasJob_example :
    HasJob done_job
      (run fractions thresholds timing after_success
        (record fresh_cluster { world = world_of (db_with done_job) })).world.db
run-HasJob_example =
    run-HasJob fractions thresholds timing done_job refl after_success
      (record fresh_cluster { world = world_of (db_with done_job) }) done_job-HasJob

-- The worker under its former epoch.
abbrev old_beat : HeartbeatRequest
old_beat = record {
  worker_id = some 7;
  epoch = 1;
  status = ProtoWorkerStatus.busy;
  current_job_id = some 5;
  available_capacity = pos 1;
}

old_beat-IsUnknown : IsUnknown 7 1 fleet
unfolding read_hash
old_beat-IsUnknown = (λ c h. absurd (cc), (refl, (refl, tt)))

handle_heartbeat-Refused_example : Refused fleet (handle_heartbeat 300 20 old_beat fleet)
handle_heartbeat-Refused_example =
    handle_heartbeat-Refused 300 20 7 old_beat fleet refl old_beat-IsUnknown

-- Both workers are overdue, and worker 7 holds the job.
sweep-KeepsStreams_example : (sweep 60_000_000_000 20 held).1.redis.streams ≡ held.redis.streams
sweep-KeepsStreams_example = sweep-KeepsStreams 60_000_000_000 20 held
