-- ===== src/Consistency/Forever.antt =====
-- A job with a final status stays as it is in every run of the scheduler.
use fleetforge.Base.{◌≡◌, refl, subst, true, List, arith}
use fleetforge.Schema.{Job, Db}
use fleetforge.Consistency.Jobs.{is_final}
use fleetforge.Consistency.Row.{IsStored, HasRowIn, Allows}
use fleetforge.Consistency.Row.Kept.{HasRow-StoreKeeps}
use fleetforge.Consistency.Runs.{Timing, Event, Cluster, run, run-Keeps}
use fleetforge.Scheduler.Select.{Floats}
use fleetforge.Scheduler.Autoscaler.{AutoscalerConfig}

abbrev pub HasJob : Job → Db → Type 0
HasJob j db = IsStored j db.jobs

-- No change is made to a row with a final status.
final-Allows : (j : Job) → is_final j.status ≡ true → Allows (λ k. k ≡ j)
final-Allows j final = record {
  takes = λ wid e k is same. absurd (ground arith);
  starts = λ now k is same. absurd (ground arith);
  finishes = λ now s log_ref k is over other same. absurd (ground arith);
  parks = λ at k is within same. absurd (ground arith);
  exhausts = λ now log_ref k is spent same. absurd (ground arith);
  requeues = λ k is same. absurd (ground arith);
  unparks = λ k is same. absurd (ground arith);
}

-- With any float64 arithmetic and any configuration, if a job has a final status and every row
-- under its key is this job, then after every run of requests and loop ticks, whichever calls
-- fail, there still is a row under the key and every such row is the job unchanged.
pub run-HasJob :
    (floats : Floats) (cfg : AutoscalerConfig floats.Float) (timing : Timing) (j : Job)
    → is_final j.status ≡ true
    → (es : List Event) (c : Cluster) → HasJob j c.world.db
    → HasJob j (run floats cfg timing es c).world.db
run-HasJob floats cfg timing j final es c h =
    let kept =
      run-Keeps floats cfg timing (HasRowIn (λ k. k ≡ j))
        (HasRow-StoreKeeps (λ k. k ≡ j) (final-Allows j final)) es c
        (record { row = j; stored = h; holds = refl }) in
    subst (λ k. HasJob k (run floats cfg timing es c).world.db) kept.holds kept.stored
