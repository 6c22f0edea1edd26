-- ===== src/WorkerStore/Exclusive.antt =====
-- No double booking, internal/store/postgres/workers.go.
use fleetforge.Base.{
  ℕ, ◌≡◌, ◌≢◌, inl, inr, sym, ◌∙◌, subst, ap, true, arith, count, count_after_update,
}
use fleetforge.Schema.{Uuid, Instant, Db}
use fleetforge.World.{World, ok}
use fleetforge.Consistency.{IsConsistent}
use fleetforge.Consistency.Assignment.{assign_job-IsConsistent}
use fleetforge.WorkerStore.Assign.{assignable, taken, is_queued_at, assigned_to, assign_job}
use fleetforge.WorkerStore.Assigning.{Assigned, both_changed, assign_job-atomic}

assign_job-won :
    (jid : Uuid) (created : Instant) (wid : Uuid) (e : ℕ) (w : World)
    → IsConsistent w.db
    → (assign_job jid created wid e w).0 ≡ ok true
    → Assigned jid created wid e w.db (assign_job jid created wid e w).1.db
assign_job-won jid created wid e w c won =
    elim (assign_job-atomic jid created wid e w c.ids_differ) [
      | inl (same, a) ↦ a
      | inr (lost, kept) ↦ absurd (lost won)
    ]

module _ (jid : Uuid) (created : Instant) (wid : Uuid) (e : ℕ) (w v : World) (c : IsConsistent w.db)
    (won : (assign_job jid created wid e w).0 ≡ ok true)
    (next : v.db ≡ (assign_job jid created wid e w).1.db) where
  after_is : v.db ≡ both_changed jid created wid e w.db
  after_is = next ∙ (assign_job-won jid created wid e w c won).2

  IsConsistent-after : IsConsistent v.db
  IsConsistent-after =
      subst IsConsistent (sym next) ((assign_job-IsConsistent jid created wid e).holds w c)

  job_gone : count (is_queued_at jid created) v.db.jobs ≡ 0
  unfolding assigned_to
  job_gone =
      ap (λ (db : Db). count (is_queued_at jid created) db.jobs) after_is
      ∙ count_after_update (is_queued_at jid created) (is_queued_at jid created) (assigned_to wid e)
          w.db.jobs (λ j hit. ground arith) (λ j miss. miss)

  worker_gone : count (assignable wid e) v.db.workers ≡ 0
  unfolding taken
  worker_gone =
      ap (λ (db : Db). count (assignable wid e) db.workers) after_is
      ∙ count_after_update (assignable wid e) (assignable wid e) (taken jid created) w.db.workers
          (λ u hit. ground arith) (λ u miss. miss)

  -- In the database that a won assignment left, from a consistent one, the job is given to no
  -- worker and the worker under the same epoch gets no job: both attempts change nothing.
  pub assign_job-exclusive :
      (wid' : Uuid) (e' : ℕ) (jid' : Uuid) (created' : Instant)
      → (((assign_job jid created wid' e' v).0 ≢ ok true)
          × ((assign_job jid created wid' e' v).1.db ≡ v.db))
        × (((assign_job jid' created' wid e v).0 ≢ ok true)
            × ((assign_job jid' created' wid e v).1.db ≡ v.db))
  assign_job-exclusive wid' e' jid' created' = (
    elim (assign_job-atomic jid created wid' e' v IsConsistent-after.ids_differ) [
      | inr kept ↦ kept
      | inl (again, a) ↦ absurd (omega (arith, a.1, job_gone))
    ],
    elim (assign_job-atomic jid' created' wid e v IsConsistent-after.ids_differ) [
      | inr kept ↦ kept
      | inl (again, a) ↦ absurd (omega (arith, a.0, worker_gone))
    ],
  )
