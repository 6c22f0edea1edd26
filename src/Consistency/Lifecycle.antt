-- ===== src/Consistency/Lifecycle.antt =====
-- The life of a job, as docs/01-architecture-overview.md tells it: an abstract machine on a status and
-- a number of retries, and the runs of the whole scheduler as its paths.
pub mod Retried
use fleetforge.Base.{
  ℕ, ◌≡◌, refl, ap, ◌∙◌, sym, subst, Bool, true, false, Option, none, some, String, List, arith,
  ◌⊎◌, inl, inr,
}
use fleetforge.Base.Int.{ℤ, pos, leb_ℤ, pos_part, neg_part, ◌≤ℤ◌, ltb_ℤ}
use fleetforge.Schema.{
  Uuid, Instant, Job, JobStatus, queued, assigned, running, failed, retrying, is_held,
  job_status_eq,
}
use fleetforge.WorkerStore.Assign.{assigned_to}
use fleetforge.JobStore.Backoff.{next_retries}
use fleetforge.JobStore.Transitions.{finish_job, park}
use fleetforge.Consistency.Jobs.{is_final}
use fleetforge.Consistency.Row.{HasRow, HasRowIn, Allows}
use fleetforge.Consistency.Row.Kept.{HasRow-StoreKeeps}
use fleetforge.Consistency.Forever.{HasJob}
use fleetforge.Consistency.Runs.{Timing, Event, Cluster, run, run-Keeps}
use fleetforge.Scheduler.Select.{Floats}
use fleetforge.Scheduler.Autoscaler.{AutoscalerConfig}

-- What the client submitted, which nothing changes.
pub record JobSpec : Type 0 where
  pub id : Uuid
  pub created_at : Instant
  pub priority : ℕ
  pub repository : String
  pub branch : String
  pub commit_sha : String
  pub labels : List (String × String)
  pub required_capabilities : List String
  pub max_retries : ℤ
  pub idempotency_key : Option String

abbrev pub spec_of : Job → JobSpec
spec_of j = record {
  id = j.id;
  created_at = j.created_at;
  priority = j.priority;
  repository = j.repository;
  branch = j.branch;
  commit_sha = j.commit_sha;
  labels = j.labels;
  required_capabilities = j.required_capabilities;
  max_retries = j.max_retries;
  idempotency_key = j.idempotency_key;
}

pub record Phase : Type 0 where
  pub status : JobStatus
  pub retries : ℤ

abbrev pub phase_of : Job → Phase
phase_of j = record { status = j.status; retries = j.retries }

-- The abstract machine of a job that may be retried `most` times.
pub data Move (most : ℤ) (a b : Phase) : Type 0 where
  assign : a.status ≡ queued → b ≡ record a { status = assigned } → Move most a b
  start : a.status ≡ assigned → b ≡ record a { status = running } → Move most a b
  finish :
      (s : JobStatus)
      → is_held a.status ≡ true
      → is_final s ≡ true
      → job_status_eq s failed ≡ false
      → b ≡ record a { status = s }
      → Move most a b
  retry_later :
      is_held a.status ≡ true
      → leb_ℤ (next_retries a.retries) most ≡ true
      → b ≡ record { status = retrying; retries = next_retries a.retries }
      → Move most a b
  give_up :
      is_held a.status ≡ true
      → leb_ℤ (next_retries a.retries) most ≡ false
      → b ≡ record a { status = failed }
      → Move most a b
  lose_worker : is_held a.status ≡ true → b ≡ record a { status = queued } → Move most a b
  retry_now : a.status ≡ retrying → b ≡ record a { status = queued } → Move most a b

pub data Moves (most : ℤ) (a : Phase) : Phase → Type 0 where
  stay : Moves most a a
  further : {b c : Phase} → Moves most a b → Move most b c → Moves most a c

-- What has become of the job.
abbrev pub HasLived : Job → Job → Type 0
HasLived j k = (spec_of k ≡ spec_of j) × Moves j.max_retries (phase_of j) (phase_of k)

eq_of_status : (s t : JobStatus) → job_status_eq s t ≡ true → s ≡ t
eq_of_status s t h = ground arith

module _ (j : Job) where
  most_retries : (k : Job) → spec_of k ≡ spec_of j → k.max_retries ≡ j.max_retries
  most_retries k same = ap (λ (s : JobSpec). s.max_retries) same

  HasLived-Allows : Allows (HasLived j)
  unfolding assigned_to finish_job park
  HasLived-Allows = record {
    takes = λ wid e k is (same, path). (same, further path (assign (eq_of_status _ _ is) refl));
    starts = λ now k is (same, path). (same, further path (start (eq_of_status _ _ is) refl));
    finishes = λ now s log_ref k held over other (same, path).
        (same, further path (finish s held over other refl));
    parks = λ at k held within (same, path).
        (same, further path (retry_later held (rw (← most_retries k same) within) refl));
    exhausts = λ now log_ref k held spent (same, path).
        (same, further path (give_up held (rw (← most_retries k same) spent) refl));
    requeues = λ k held (same, path). (same, further path (lose_worker held refl));
    unparks = λ k is (same, path). (same, further path (retry_now (eq_of_status _ _ is) refl));
  }

module _ (floats : Floats) (cfg : AutoscalerConfig floats.Float) (timing : Timing) where
  -- With any float64 arithmetic and any configuration, if every row under a job's key is the job,
  -- then after every run of requests and loop ticks, whichever calls fail, there is a row under
  -- the key, and every row under it is that row: what was submitted is unchanged, and its status
  -- and retries are reached from the job's by moves of the abstract machine (QUEUED to ASSIGNED to
  -- RUNNING, from a held status to a final one other than FAILED, to RETRYING with one retry more
  -- while the budget lasts and to FAILED only when it is used up, back to QUEUED when the worker
  -- is lost, and from RETRYING to QUEUED).
  pub run-HasLived :
      (j : Job) (es : List Event) (c : Cluster)
      → HasJob j c.world.db
      → HasRow (HasLived j) (run floats cfg timing es c).world.db.jobs
  run-HasLived j es c h =
      run-Keeps floats cfg timing (HasRowIn (HasLived j))
        (HasRow-StoreKeeps (HasLived j) (HasLived-Allows j)) es c
        (record { row = j; stored = h; holds = (refl, stay) })
