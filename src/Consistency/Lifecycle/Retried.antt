-- ===== src/Consistency/Lifecycle/Retried.antt =====
-- How often a job is retried: RetryOrFail over a whole run, internal/store/postgres/jobs.go.
use fleetforge.Base.{zero, suc, ◌≡◌, ◌≢◌, refl, sym, subst, false, List, arith, ◌⊎◌, inl, inr}
use fleetforge.Base.Int.{ℤ, pos, negsuc, leb_ℤ, ◌≤ℤ◌}
use fleetforge.Schema.{Job, JobStatus, failed, job_status_eq}
use fleetforge.JobStore.Backoff.{next_retries}
use fleetforge.Consistency.Row.{HasRow}
use fleetforge.Consistency.Forever.{HasJob}
use fleetforge.Consistency.Lifecycle.{
  Phase, phase_of, Move, assign, start, finish, retry_later, give_up, lose_worker, retry_now, Moves,
  stay, further, run-HasLived, spec_of,
}
use fleetforge.Consistency.Runs.{Timing, Event, Cluster, run}
use fleetforge.Scheduler.Select.{Floats}
use fleetforge.Scheduler.Autoscaler.{AutoscalerConfig}

next_grows : (r most : ℤ) → r ≤ℤ most → most ≤ℤ pos 2_147_483_646 → r ≤ℤ next_retries r
unfolding next_retries
next_grows (pos n) most h small = ground arith
next_grows (negsuc zero) most h small = omega arith
next_grows (negsuc (suc n)) most h small = omega arith

next_above :
    (r most : ℤ)
    → r ≤ℤ most
    → most ≤ℤ pos 2_147_483_646
    → leb_ℤ (next_retries r) most ≡ false
    → r ≡ most
unfolding next_retries
next_above (pos n) (pos m) h small spent = ground arith
next_above (pos n) (negsuc m) h small spent = absurd (omega arith)
next_above (negsuc zero) (pos m) h small spent = absurd (ground arith)
next_above (negsuc zero) (negsuc m) h small spent = ground arith
next_above (negsuc (suc n)) (pos m) h small spent = absurd (ground arith)
next_above (negsuc (suc n)) (negsuc m) h small spent = ground arith

-- The retries that a job has had, and none is left for a job that failed.
pub record IsRetried (from most : ℤ) (a : Phase) : Type 0 where
  pub grown : from ≤ℤ a.retries
  pub within : a.retries ≤ℤ most
  pub used : (a.status ≢ failed) ⊎ (a.retries ≡ most)

module _ (from most : ℤ) (small : most ≤ℤ pos 2_147_483_646) where
  -- A move that changes the status alone, and not to FAILED.
  moved_to :
      (a b : Phase) (s : JobStatus)
      → b ≡ record a { status = s }
      → job_status_eq s failed ≡ false
      → IsRetried from most a
      → IsRetried from most b
  moved_to a b s next other h =
      subst (IsRetried from most) (sym next)
        (record { grown = h.grown; within = h.within; used = inl (λ e. absurd (ground arith)) })

  Move-IsRetried : (a b : Phase) → Move most a b → IsRetried from most a → IsRetried from most b
  Move-IsRetried a b (assign is next) h = moved_to a b _ next refl h
  Move-IsRetried a b (start is next) h = moved_to a b _ next refl h
  Move-IsRetried a b (finish s held over other next) h = moved_to a b s next other h
  Move-IsRetried a b (retry_later held within next) h =
      subst (IsRetried from most) (sym next) (record {
        grown = omega (arith, h.grown, next_grows a.retries most h.within small);
        within = ground arith;
        used = inl (λ e. absurd (cc));
      })
  Move-IsRetried a b (give_up held spent next) h = subst (IsRetried from most) (sym next) (record {
    grown = h.grown;
    within = h.within;
    used = inr (next_above a.retries most h.within small spent);
  })
  Move-IsRetried a b (lose_worker held next) h = moved_to a b _ next refl h
  Move-IsRetried a b (retry_now is next) h = moved_to a b _ next refl h

  Moves-IsRetried : (a b : Phase) → Moves most a b → IsRetried from most a → IsRetried from most b
  Moves-IsRetried a b stay h = h
  Moves-IsRetried a c (further {b} path move) h =
      Move-IsRetried b c move (Moves-IsRetried a b path h)

module _ (floats : Floats) (cfg : AutoscalerConfig floats.Float) (timing : Timing) where
  -- With any float64 arithmetic and any configuration, if every row under a job's key is the job,
  -- its retries are within its max_retries, this is below 2^31 - 1 and it is not FAILED, then
  -- after every run of requests and loop ticks, whichever calls fail, the row under the key is the
  -- same submission, its retries have not fallen and are at most max_retries, and if it is FAILED
  -- they are max_retries.
  pub run-IsRetried :
      (j : Job) (es : List Event) (c : Cluster)
      → HasJob j c.world.db
      → j.retries ≤ℤ j.max_retries
      → j.max_retries ≤ℤ pos 2_147_483_646
      → j.status ≢ failed
      → HasRow
          (λ k. (spec_of k ≡ spec_of j) × IsRetried j.retries j.max_retries (phase_of k))
          (run floats cfg timing es c).world.db.jobs
  run-IsRetried j es c h budget small other =
      let lived = run-HasLived floats cfg timing j es c h in
      let begun : IsRetried j.retries j.max_retries (phase_of j) = record {
        grown = omega arith;
        within = budget;
        used = inl other;
      } in
      record {
        row = lived.row;
        stored = lived.stored;
        holds = (
          lived.holds.0,
          Moves-IsRetried j.retries j.max_retries small (phase_of j) (phase_of lived.row)
              lived.holds.1 begun,
        );
      }
