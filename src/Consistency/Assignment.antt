-- ===== src/Consistency/Assignment.antt =====
-- The assignment transaction keeps the database consistent: the epoch that it writes to the job is the
-- epoch of a registered worker.
use fleetforge.Base.{
  ℕ, ◌≡◌, refl, Bool, true, false, some, arith, Bool-cases, inl, inr, query_row, is_some, count,
  found-count, found-update, not, ◌==◌, ltb, ◌&&◌,
}
use fleetforge.Schema.{Uuid, Instant, Db}
use fleetforge.Statements.{job_at}
use fleetforge.World.{World, Result, ok, err, job_assign_race_lost, statement}
use fleetforge.Effects.{
  Keeps, Keeps-statement, Keeps-pure, Keeps-throw, Keeps-attempt, Keeps-bind, Keeps-begin_func,
  Keeps-if, Leads-if, Leads-pure, Leads, Leads-bind, Leads-statement, statement-eq-ok,
}
use fleetforge.Consistency.{since_epoch, is_known, IsConsistent}
use fleetforge.Consistency.Statements.{IsConsistent-update_workers, IsConsistent-update_jobs}
use fleetforge.Consistency.Workers.{harmless}
use fleetforge.WorkerStore.Assign.{
  assignable, taken, take_worker, assigned_to, take_job, assign_body, forgive_race, assign_job,
}

module _ (jid : Uuid) (created : Instant) (wid : Uuid) (e : ℕ) where
  take_worker-IsConsistent :
      (db : Db) → IsConsistent db → IsConsistent (take_worker jid created wid e db).1
  unfolding take_worker taken
  take_worker-IsConsistent db c =
      elim (Bool-cases (
        ltb 0 (count (assignable wid e) db.workers)
        && not (is_some (query_row (job_at jid created) db.jobs)))) [
          | inl refused ↦ rw refused c
          | inr taken ↦ rw taken (
              IsConsistent-update_workers
                (harmless (λ w. refl) (λ w. refl) (λ w _ h. omega arith) (λ w. refl)) db c)
        ]

  -- One worker was taken: it is registered under the epoch.
  abbrev Taken : ℕ → Db → Type 0
  Taken n db = IsConsistent db × ((n == 1) ≡ true → is_known db.workers (some wid) (some e) ≡ true)

  take_worker-known :
      (db : Db)
      → count (assignable wid e) db.workers ≡ 1
      → is_known (take_worker jid created wid e db).1.workers (some wid) (some e) ≡ true
  unfolding take_worker taken
  take_worker-known db one =
      let known =
        found-count (since_epoch wid e) (assignable wid e) db.workers (λ w h. ground arith)
          (ground arith) in
      ground (
        arith,
        known,
        found-update (since_epoch wid e) (assignable wid e) (taken jid created) db.workers
            (λ w h. h) known,
      )

  take_worker-affected :
      (db : Db) (n : ℕ)
      → (take_worker jid created wid e db).0 ≡ ok n
      → n ≡ count (assignable wid e) db.workers
  unfolding take_worker taken
  take_worker-affected db n h = ground arith

  take_worker-Taken :
      (w : World) (n : ℕ)
      → IsConsistent w.db
      → (statement (take_worker jid created wid e) w).0 ≡ ok n
      → Taken n (statement (take_worker jid created wid e) w).1.db
  take_worker-Taken w n c h =
      let (same, left) = statement-eq-ok (take_worker jid created wid e) w h in
      rw left (
        take_worker-IsConsistent w.db c,
        λ one. take_worker-known w.db (ground (arith, take_worker-affected w.db n same)),
      )

  take_job-IsConsistent :
      (db : Db)
      → IsConsistent db
      → is_known db.workers (some wid) (some e) ≡ true
      → IsConsistent (take_job jid created wid e db).1
  unfolding take_job assigned_to
  take_job-IsConsistent db c known =
      IsConsistent-update_jobs db
        (record {
          sound = λ j _ s. ground arith;
          fenced = λ j _ _. known;
          same = record { same_id = λ j. refl; same_created_at = λ j. refl };
        })
        c

  move_job-IsConsistent :
      (n : ℕ)
      → (n == 1) ≡ true
      → Leads (Taken n) IsConsistent (statement (take_job jid created wid e))
  move_job-IsConsistent n one =
      Leads-statement _ (λ db c. c.0) (λ db c. take_job-IsConsistent db c.0 (c.1 one))

forgive_race-Keeps : (r : Result Bool) → Keeps IsConsistent (forgive_race r)
unfolding forgive_race
forgive_race-Keeps (ok b) = Keeps-pure b
forgive_race-Keeps (err job_assign_race_lost) = Keeps-pure false
forgive_race-Keeps (err e) = Keeps-throw e

pub assign_body-IsConsistent :
    (jid : Uuid) (created : Instant) (wid : Uuid) (e : ℕ)
    → Keeps IsConsistent (assign_body jid created wid e)
unfolding assign_body
assign_body-IsConsistent jid created wid e =
    Leads-bind (Taken jid created wid e)
      (Keeps-statement _ (take_worker-IsConsistent jid created wid e))
      (take_worker-Taken jid created wid e)
      λ n.
        Leads-if (not (n == 1)) (λ _. Leads-pure (λ db c. c.0) false)
          λ one.
            Leads-bind (λ _. IsConsistent)
              (move_job-IsConsistent jid created wid e n (ground arith))
              (λ w m c h. (move_job-IsConsistent jid created wid e n (ground arith)).holds w c)
              λ m.
                Keeps-if (not (m == 1)) (λ _. Keeps-throw job_assign_race_lost)
                  (λ _. Keeps-pure true)

pub assign_job-IsConsistent :
    (jid : Uuid) (created : Instant) (wid : Uuid) (e : ℕ)
    → Keeps IsConsistent (assign_job jid created wid e)
unfolding assign_job
assign_job-IsConsistent jid created wid e =
    Keeps-bind (Keeps-attempt (Keeps-begin_func (assign_body-IsConsistent jid created wid e)))
      λ r. forgive_race-Keeps r
