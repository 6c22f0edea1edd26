-- ===== src/Deployment.antt =====
-- Several replicas of the scheduler on one database and one Redis, main of cmd/scheduler/main.go:
-- every replica answers requests; its background loops run while its LeaderElector says that it
-- leads. The advisory lock is a parameter.
pub mod OneActor
pub mod Groups
pub mod Ready
pub mod Startup
use fleetforge.Base.{ℕ, Bool, true, false, not, ◌||◌, ◌==◌, if◌then◌else◌}
use fleetforge.World.{World}
use fleetforge.Consistency.Runs.{
  Timing, Event, registers, beats, reports, submits, drains, resumes, schedules, sweeps, polls,
  scales, Cluster, step,
}
use fleetforge.Scheduler.Select.{Floats}
use fleetforge.Scheduler.Autoscaler.{AutoscalerConfig, AutoscalerState}
use fleetforge.Scheduler.Leader.{Session, AdvisoryLock, Check, new_leader_elector}
use fleetforge.Scheduler.Leadership.{Cluster as Electors, IsPossible, check_at, release_at, end_at}

-- The ticks of the loops that a replica starts, as opposed to the requests that it answers.
unfoldable pub is_background : Event → Bool
is_background (registers new_id now p) = false
is_background (beats now req) = false
is_background (reports now req) = false
is_background (submits new_id now req) = false
is_background (drains wid) = false
is_background (resumes wid) = false
is_background schedules = true
is_background (sweeps now) = true
is_background (polls now) = true
is_background (scales now) = true

-- The tick of a background loop does nothing unless the replica leads.
unfoldable pub admits : (is_leader : Bool) → Event → Bool
unfolding is_background
admits is_leader e = if is_background e then is_leader else true

-- The replicas' electors with the lock, the world, and what the autoscaler of each replica remembers.
pub record Deployment (lock : AdvisoryLock) : Type 0 where
  pub electors : Electors lock
  pub world : World
  pub autoscalers : ℕ → AutoscalerState

-- What replica `r` acts on.
abbrev pub cluster_of : {lock : AdvisoryLock} → ℕ → Deployment lock → Cluster
cluster_of r d = record { world = d.world; autoscaler = d.autoscalers r }

abbrev pub set_autoscaler : ℕ → AutoscalerState → (ℕ → AutoscalerState) → ℕ → AutoscalerState
set_autoscaler r s autoscalers q = if q == r then s else autoscalers q

abbrev pub leads : {lock : AdvisoryLock} → ℕ → Deployment lock → Bool
leads r d = (d.electors.replicas r).is_leader

abbrev pub with_electors : {lock : AdvisoryLock} → Electors lock → Deployment lock → Deployment lock
with_electors electors d = record {
  electors = electors;
  world = d.world;
  autoscalers = d.autoscalers;
}

module _ (lock : AdvisoryLock) (floats : Floats) (cfg : AutoscalerConfig floats.Float)
    (timing : Timing) where
  -- The background loops read the flag once, at the start of a tick.
  unfoldable pub gated_step : Bool → Event → Cluster → Cluster
  unfolding admits
  gated_step is_leader e c = if admits is_leader e then step floats cfg timing e c else c

  abbrev pub act_at : ℕ → Event → Deployment lock → Deployment lock
  act_at r e d =
      let c = gated_step (leads r d) e (cluster_of r d) in
      record {
        electors = d.electors;
        world = c.world;
        autoscalers = set_autoscaler r c.autoscaler d.autoscalers;
      }

  -- The deployments that requests and ticks of the replicas, their checks, their shutdowns and the
  -- ends of their sessions lead to, in any order, from a world in which no replica leads.
  pub data Reach (w : World) : Deployment lock → Type 0 where
    started :
        (st : lock.State) (autoscalers : ℕ → AutoscalerState)
        → Reach w (record {
          electors = record {
            replicas = λ r. new_leader_elector;
            ended = λ s. false;
            lock_state = st;
          };
          world = w;
          autoscalers = autoscalers;
        })
    acted : {d : Deployment lock} (r : ℕ) (e : Event) → Reach w d → Reach w (act_at r e d)
    checked :
        {d : Deployment lock} (r : ℕ) (check : Check)
        → Reach w d
        → IsPossible d.electors.ended r (d.electors.replicas r) check
        → Reach w (with_electors (check_at lock r check d.electors) d)
    released :
        {d : Deployment lock} (r : ℕ) (unlock_ok : Bool)
        → Reach w d
        → Reach w (with_electors (release_at lock r unlock_ok d.electors) d)
    session_ended :
        {d : Deployment lock} (s : Session)
        → Reach w d
        → Reach w (with_electors (end_at lock s d.electors) d)
