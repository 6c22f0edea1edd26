-- ===== src/Consistency/Row/Jobs.antt =====
-- The operations that move one job, or add one, internal/store/postgres.
use fleetforge.Base.{
  ℕ, ◌≡◌, refl, Bool, true, false, not, ◌==◌, Option, String, arith, is_some, query_row, str_eq,
  Bool-cases, inl, inr,
}
use fleetforge.Base.Int.{ℤ}
use fleetforge.Schema.{Uuid, Instant, Job, JobStatus, failed, job_status_eq, Db}
use fleetforge.World.{Result, ok, err, job_not_found, job_assign_race_lost, statement}
use fleetforge.Effects.{
  Keeps, Keeps-statement, Keeps-pure, Keeps-throw, Keeps-attempt, Keeps-bind, Keeps-if,
  Keeps-begin_func,
}
use fleetforge.Statements.{job_at}
use fleetforge.WorkerStore.Assign.{
  take_worker, take_job, assigned_to, is_queued_at, assign_body, forgive_race, assign_job,
}
use fleetforge.JobStore.Create.{
  CreateJobParams, new_job, insertable, insert_job, get_by_idempotency_key, create_after_lookup,
  create,
}
use fleetforge.JobStore.Transitions.{
  starts, mark_running, reportable, finish_job, complete, park, is_parked_at,
  mark_queued_from_retry,
}
use fleetforge.Consistency.Statements.{SameKey}
use fleetforge.Consistency.Jobs.{is_final}
use fleetforge.Consistency.Row.{
  IsStored, HasRow, HasRowIn, Allows, IsStored-insert, other_table-Keeps, update_jobs-Keeps,
}

pub finish_job-SameKey :
    (p : Job → Bool) (now : Instant) (s : JobStatus) (log_ref : Option String)
    → SameKey p (finish_job now s log_ref)
unfolding finish_job
finish_job-SameKey p now s log_ref = record { same_id = λ k. refl; same_created_at = λ k. refl }

pub park-SameKey : (p : Job → Bool) (retries : ℤ) (at : Instant) → SameKey p (park retries at)
unfolding park
park-SameKey p retries at = record { same_id = λ k. refl; same_created_at = λ k. refl }

assigned_to-SameKey : (p : Job → Bool) (wid : Uuid) (e : ℕ) → SameKey p (assigned_to wid e)
unfolding assigned_to
assigned_to-SameKey p wid e = record { same_id = λ k. refl; same_created_at = λ k. refl }

new_key :
    (j : Job) (new_id : Uuid) (now : Instant) (p : CreateJobParams) (db : Db)
    → insertable new_id now p db ≡ true
    → IsStored j db.jobs
    → job_at j.id j.created_at (new_job new_id now p) ≡ false
unfolding new_job insertable
new_key j new_id now p db passed h =
    elim (Bool-cases (job_at j.id j.created_at (new_job new_id now p))) [
      | inr e ↦ e
      | inl e ↦
          let ids : j.id ≡ new_id = ground arith in
          let times : j.created_at ≡ now = ground arith in
          let free : is_some (query_row (job_at new_id now) db.jobs) ≡ false = ground arith in
          let taken : is_some (query_row (job_at new_id now) db.jobs) ≡ true =
            rw (ids, times) at h.there in
          absurd (cc)
    ]

module _ (P : Job → Type 0) (allowed : Allows P) where
  pub mark_running-Keeps :
      (now : Instant) (jid : Uuid) (e : ℕ) → Keeps (HasRowIn P) (mark_running now jid e)
  unfolding mark_running
  mark_running-Keeps now jid e =
      update_jobs-Keeps P _ (starts jid e) _
        (record { same_id = λ k. refl; same_created_at = λ k. refl })
        (λ k hit h. allowed.starts now k (ground arith) h)

  pub complete-Keeps :
      (now : Instant) (jid : Uuid) (created : Instant) (e : ℕ) (s : JobStatus) (log_ref : String)
      → is_final s ≡ true
      → job_status_eq s failed ≡ false
      → Keeps (HasRowIn P) (complete now jid created e s log_ref)
  unfolding complete
  complete-Keeps now jid created e s log_ref final other =
      update_jobs-Keeps P _ (reportable jid created e) _ (finish_job-SameKey _ now s _)
        (λ k hit h. allowed.finishes now s _ k (ground arith) final other h)

  pub mark_queued_from_retry-Keeps :
      (jid : Uuid) (created : Instant) → Keeps (HasRowIn P) (mark_queued_from_retry jid created)
  unfolding mark_queued_from_retry
  mark_queued_from_retry-Keeps jid created =
      update_jobs-Keeps P _ (is_parked_at jid created) _
        (record { same_id = λ k. refl; same_created_at = λ k. refl })
        (λ k hit h. allowed.unparks k (ground arith) h)

  assign_body-Keeps :
      (jid : Uuid) (created : Instant) (wid : Uuid) (e : ℕ)
      → Keeps (HasRowIn P) (assign_body jid created wid e)
  unfolding assign_body take_worker take_job
  assign_body-Keeps jid created wid e =
      Keeps-bind (other_table-Keeps (HasRow P) _ (λ db. ground arith)) λ n.
        Keeps-if (not (n == 1)) (λ _. Keeps-pure false)
          λ _.
            Keeps-bind
              (update_jobs-Keeps P _ (is_queued_at jid created) (assigned_to wid e)
                (assigned_to-SameKey _ wid e) (λ k hit h. allowed.takes wid e k (ground arith) h))
              λ m.
                Keeps-if (not (m == 1)) (λ _. Keeps-throw job_assign_race_lost)
                  (λ _. Keeps-pure true)

  race-Keeps : (r : Result Bool) → Keeps (HasRowIn P) (forgive_race r)
  unfolding forgive_race
  race-Keeps (ok b) = Keeps-pure b
  race-Keeps (err job_assign_race_lost) = Keeps-pure false
  race-Keeps (err e) = Keeps-throw e

  pub assign_job-Keeps :
      (jid : Uuid) (created : Instant) (wid : Uuid) (e : ℕ)
      → Keeps (HasRowIn P) (assign_job jid created wid e)
  unfolding assign_job
  assign_job-Keeps jid created wid e =
      Keeps-bind (Keeps-attempt (Keeps-begin_func (assign_body-Keeps jid created wid e))) race-Keeps

  insert_job-Keeps :
      (new_id : Uuid) (now : Instant) (p : CreateJobParams)
      → Keeps (HasRowIn P) (statement (insert_job new_id now p))
  unfolding insert_job
  insert_job-Keeps new_id now p = Keeps-statement _ (λ db h.
      elim (Bool-cases (insertable new_id now p db)) [
        | inr f ↦ rw f h
        | inl t ↦ rw t record {
          row = h.row;
          stored =
              IsStored-insert h.row (new_job new_id now p) db.jobs
                (new_key h.row new_id now p db t h.stored) h.stored;
          holds = h.holds;
        }
      ])

  after_lookup-Keeps :
      (new_id : Uuid) (now : Instant) (p : CreateJobParams) (r : Result Job)
      → Keeps (HasRowIn P) (create_after_lookup new_id now p r)
  unfolding create_after_lookup
  after_lookup-Keeps new_id now p (ok k) = Keeps-pure (k, true)
  after_lookup-Keeps new_id now p (err job_not_found) =
      Keeps-bind (insert_job-Keeps new_id now p) (λ k. Keeps-pure (k, false))
  after_lookup-Keeps new_id now p (err e) = Keeps-throw e

  pub create-Keeps :
      (new_id : Uuid) (now : Instant) (p : CreateJobParams)
      → Keeps (HasRowIn P) (create new_id now p)
  unfolding create get_by_idempotency_key
  create-Keeps new_id now p =
      Keeps-if (str_eq p.idempotency_key "")
        (λ _. after_lookup-Keeps new_id now p (err job_not_found))
        λ _.
          Keeps-bind (Keeps-attempt (other_table-Keeps (HasRow P) _ (λ db. refl)))
            (after_lookup-Keeps new_id now p)
