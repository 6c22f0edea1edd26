-- ===== src/Consistency/Runs.antt =====
-- A run of the whole scheduler: the requests of workers and clients and the ticks of the leader's
-- loops, in any order, with any calls to Postgres and Redis failing.
use fleetforge.Base.{ℕ, Option, List, [], ◌∷◌}
use fleetforge.Schema.{Uuid, Instant, Db}
use fleetforge.World.{World, Result, ok, err}
use fleetforge.Consistency.{IsConsistent}
use fleetforge.Consistency.Operations.{StoreKeeps, IsConsistent-StoreKeeps}
use fleetforge.Consistency.Loops.{tick-Keeps, sweep-Keeps, poll-Keeps}
use fleetforge.Consistency.Handlers.{
  handle_heartbeat-Keeps, report_job_result-Keeps, register_worker-Keeps, submit_job-Keeps,
  drain_worker-Keeps, resume_worker-Keeps,
}
use fleetforge.WorkerStore.Register.{RegisterWorkerParams}
use fleetforge.Grpc.Proto.{HeartbeatRequest, ReportJobResultRequest}
use fleetforge.Grpc.Register.{register_worker}
use fleetforge.Grpc.Heartbeat.{handle_heartbeat}
use fleetforge.Grpc.Report.{report_job_result}
use fleetforge.Api.Handlers.{SubmitJobRequest, submit_job, drain_worker, resume_worker}
use fleetforge.Scheduler.Select.{Floats}
use fleetforge.Scheduler.Loop.{tick}
use fleetforge.Scheduler.Sweeps.{sweep, poll}
use fleetforge.Scheduler.Autoscaler.{AutoscalerConfig, AutoscalerState, tick as rescale}
use fleetforge.Consistency.Autoscaling.{tick-Keeps as rescale-Keeps}

-- HeartbeatIntervalSeconds and HeartbeatTimeoutSeconds of internal/config.
pub record Timing : Type 0 where
  pub interval_seconds : ℕ
  pub timeout_seconds : ℕ

pub data Event : Type 0 where
  registers : (new_id : Uuid) → Instant → RegisterWorkerParams → Event
  beats : Instant → HeartbeatRequest → Event
  reports : Instant → ReportJobResultRequest → Event
  submits : (new_id : Uuid) → Instant → Option SubmitJobRequest → Event
  drains : Uuid → Event
  resumes : Uuid → Event
  schedules : Event
  sweeps : Instant → Event
  polls : Instant → Event
  scales : Instant → Event

-- What a run acts on: the world, and what the leader's autoscaler remembers.
pub record Cluster : Type 0 where
  pub world : World
  pub autoscaler : AutoscalerState

abbrev after_scaling : AutoscalerState → Result AutoscalerState × World → Cluster
after_scaling s (ok s', w) = record { world = w; autoscaler = s' }
after_scaling s (err e, w) = record { world = w; autoscaler = s }

module _ (I : Db → Type 0) where
  after_scaling-Keeps :
      (s : AutoscalerState) (r : Result AutoscalerState) (w : World)
      → I w.db
      → I (after_scaling s (r, w)).world.db
  after_scaling-Keeps s (ok s') w c = c
  after_scaling-Keeps s (err e) w c = c

-- The cluster after an event.
module _ (floats : Floats) (cfg : AutoscalerConfig floats.Float) (timing : Timing) where
  open timing use {interval_seconds, timeout_seconds}

  unfoldable pub step : Event → Cluster → Cluster
  step (registers new_id now p) c = record c {
    world = (register_worker interval_seconds timeout_seconds new_id now p c.world).1;
  }
  step (beats now req) c = record c { world = (handle_heartbeat now timeout_seconds req c.world).1 }
  step (reports now req) c = record c { world = (report_job_result now req c.world).1 }
  step (submits new_id now req) c = record c { world = (submit_job new_id now req c.world).1 }
  step (drains wid) c = record c { world = (drain_worker wid c.world).1 }
  step (resumes wid) c = record c { world = (resume_worker wid c.world).1 }
  step schedules c = record c { world = (tick floats c.world).1 }
  step (sweeps now) c = record c { world = (sweep now timeout_seconds c.world).1 }
  step (polls now) c = record c { world = (poll now c.world).1 }
  step (scales now) c = after_scaling c.autoscaler (rescale floats cfg now c.autoscaler c.world)

  unfoldable pub run : List Event → Cluster → Cluster
  run [] c = c
  run (e ∷ es) c = run es (step e c)

  pub step-Keeps :
      (I : Db → Type 0) (kept : StoreKeeps I) (e : Event) (c : Cluster)
      → I c.world.db
      → I (step e c).world.db
  unfolding step
  step-Keeps I kept (registers new_id now p) c h =
      (register_worker-Keeps I kept interval_seconds timeout_seconds new_id now p).holds c.world h
  step-Keeps I kept (beats now req) c h =
      (handle_heartbeat-Keeps I kept now timeout_seconds req).holds c.world h
  step-Keeps I kept (reports now req) c h = (report_job_result-Keeps I kept now req).holds c.world h
  step-Keeps I kept (submits new_id now req) c h =
      (submit_job-Keeps I kept new_id now req).holds c.world h
  step-Keeps I kept (drains wid) c h = (drain_worker-Keeps I kept wid).holds c.world h
  step-Keeps I kept (resumes wid) c h = (resume_worker-Keeps I kept wid).holds c.world h
  step-Keeps I kept schedules c h = (tick-Keeps I kept floats).holds c.world h
  step-Keeps I kept (sweeps now) c h = (sweep-Keeps I kept now timeout_seconds).holds c.world h
  step-Keeps I kept (polls now) c h = (poll-Keeps I kept now).holds c.world h
  step-Keeps I kept (scales now) c h =
      let m = rescale floats cfg now c.autoscaler in
      after_scaling-Keeps I c.autoscaler (m c.world).0 (m c.world).1
        ((rescale-Keeps I kept floats cfg now c.autoscaler).holds c.world h)

  -- What every operation of the stores keeps, a run keeps.
  pub run-Keeps :
      (I : Db → Type 0) (kept : StoreKeeps I) (es : List Event) (c : Cluster)
      → I c.world.db
      → I (run es c).world.db
  unfolding run
  run-Keeps I kept [] c h = h
  run-Keeps I kept (e ∷ es) c h = run-Keeps I kept es (step e c) (step-Keeps I kept e c h)

  -- With any float64 arithmetic and any configuration, from a consistent database every run of
  -- requests and loop ticks, the autoscaler's included, whichever calls fail, ends in a consistent
  -- one.
  pub run-IsConsistent :
      (es : List Event) (c : Cluster) → IsConsistent c.world.db → IsConsistent (run es c).world.db
  run-IsConsistent es c h = run-Keeps IsConsistent IsConsistent-StoreKeeps es c h

-- The database of a fresh installation.
abbrev pub empty_db : Db
empty_db = record { workers = []; jobs = []; history = []; events = [] }

pub empty_db-IsConsistent : IsConsistent empty_db
empty_db-IsConsistent = record {
  jobs_sound = tt;
  workers_sound = tt;
  ids_differ = tt;
  keys_differ = tt;
  numbered = tt;
  fenced = tt;
}
