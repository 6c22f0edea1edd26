-- ===== src/Consistency/Workers.antt =====
-- The operations of WorkerStore keep the database consistent, whichever of their calls fail.
use fleetforge.Base.{
  ℕ, ◌+◌, ◌≤◌, ◌≡◌, refl, Bool, true, Option, none, some, arith, Option-cases, inl, inr, query_row,
  count, ◌==◌,
}
use fleetforge.Schema.{Uuid, Instant, Worker, Job, Db, WorkerStatus, EventType}
use fleetforge.Statements.{next_attempt, of_job}
use fleetforge.World.{World, Result, ok, err, no_rows, statement}
use fleetforge.Effects.{
  Keeps, Keeps-statement, Keeps-pure, Keeps-throw, Keeps-attempt, Keeps-bind, Keeps-begin_func,
  Keeps-if, Keeps-for_each, Leads-bind, Leads-statement, statement-eq-ok,
}
use fleetforge.Consistency.{IsConsistent}
use fleetforge.Consistency.Statements.{
  KeepsIdentity, IsConsistent-update_workers, IsConsistent-update_jobs, insert_event-IsConsistent,
  insert_history-IsConsistent,
}
use fleetforge.WorkerStore.Liveness.{
  current_job_created_at, lookup_created_at, set_heartbeat, update_heartbeat, mark_dead,
  jobs_held_by, requeue, requeue_job, requeue_all, mark_dead_and_requeue,
}
use fleetforge.WorkerStore.Assign.{freed, free_worker}
use fleetforge.WorkerStore.Drain.{
  live_with_id, change_drain, start_draining, stop_draining, forgive_no_rows, drain_transaction,
  request_drain, resume_drain,
}

-- A worker's update that leaves id, epoch and capacity alone.
pub harmless :
    {p : Worker → Bool} {f : Worker → Worker}
    → ((w : Worker) → (f w).id ≡ w.id)
    → ((w : Worker) → (f w).epoch ≡ w.epoch)
    → ((w : Worker)
        → p w ≡ true
        → w.available_capacity ≤ w.capacity_slots
        → (f w).available_capacity ≤ w.capacity_slots)
    → ((w : Worker) → (f w).capacity_slots ≡ w.capacity_slots)
    → KeepsIdentity p f
harmless id epoch capacity slots = record {
  sound = λ w hit s. ground (arith, epoch w, slots w, capacity w hit s.bounded);
  same_id = id;
  later = λ w. ground (arith, epoch w);
}

set_heartbeat-IsConsistent :
    (now : Instant) (wid : Uuid) (e : ℕ) (s : WorkerStatus) (jid : Option Uuid) (t : Option Instant)
    (db : Db)
    → IsConsistent db
    → IsConsistent (set_heartbeat now wid e s jid t db).1
unfolding set_heartbeat
set_heartbeat-IsConsistent now wid e s jid t db c =
    IsConsistent-update_workers (harmless (λ w. refl) (λ w. refl) (λ w _ h. h) (λ w. refl)) db c

current_job_created_at-IsConsistent :
    (jid : Option Uuid) → Keeps IsConsistent (current_job_created_at jid)
unfolding current_job_created_at lookup_created_at
current_job_created_at-IsConsistent none = Keeps-pure none
current_job_created_at-IsConsistent (some jid) = Keeps-statement _ (λ db c. c)

pub update_heartbeat-IsConsistent :
    (now : Instant) (wid : Uuid) (e : ℕ) (s : WorkerStatus) (jid : Option Uuid)
    → Keeps IsConsistent (update_heartbeat now wid e s jid)
unfolding update_heartbeat
update_heartbeat-IsConsistent now wid e s jid =
    Keeps-bind (current_job_created_at-IsConsistent jid)
      λ t. Keeps-statement _ (set_heartbeat-IsConsistent now wid e s jid t)

mark_dead-IsConsistent :
    (wid : Uuid) (e : ℕ) (db : Db) → IsConsistent db → IsConsistent (mark_dead wid e db).1
unfolding mark_dead
mark_dead-IsConsistent wid e db c =
    IsConsistent-update_workers
      (harmless (λ w. refl) (λ w. refl) (λ w _ h. omega arith) (λ w. refl)) db c

requeue-IsConsistent :
    (jid : Uuid) (created : Instant) (db : Db)
    → IsConsistent db
    → IsConsistent (requeue jid created db).1
unfolding requeue
requeue-IsConsistent jid created db c =
    IsConsistent-update_jobs db
      (record {
        sound = λ j _ s. ground arith;
        fenced = λ j _ _. refl;
        same = record { same_id = λ j. refl; same_created_at = λ j. refl };
      })
      c

-- A number that was counted for a job, while the history stays as it is.
abbrev pub Counted : Uuid → ℕ → Db → Type 0
Counted jid n db = IsConsistent db × (n ≡ count (of_job jid) db.history + 1)

pub next_attempt-Counted :
    (jid : Uuid) (w : World) (n : ℕ)
    → IsConsistent w.db
    → (statement (next_attempt jid) w).0 ≡ ok n
    → Counted jid n (statement (next_attempt jid) w).1.db
unfolding next_attempt
next_attempt-Counted jid w n c e =
    let (same, left) = statement-eq-ok (next_attempt jid) w e in rw left (c, ground arith)

requeue_job-IsConsistent :
    (now : Instant) (wid : Uuid) (j : Job) → Keeps IsConsistent (requeue_job now wid j)
unfolding requeue_job
requeue_job-IsConsistent now wid j =
    Keeps-bind (Keeps-statement _ (requeue-IsConsistent j.id j.created_at)) λ _.
      Leads-bind (Counted j.id) (unfold next_attempt in Keeps-statement _ (λ db c. c))
        (next_attempt-Counted j.id)
        λ n. Leads-statement _ (λ db c. c.0) (λ db c. insert_history-IsConsistent _ db c.1 c.0)

requeue_all-IsConsistent :
    (now : Instant) (wid : Uuid) (e : ℕ) → Keeps IsConsistent (requeue_all now wid e)
unfolding requeue_all
requeue_all-IsConsistent now wid e =
    Keeps-bind (unfold jobs_held_by in Keeps-statement _ (λ db c. c)) λ jobs.
      Keeps-bind (Keeps-for_each jobs (requeue_job-IsConsistent now wid))
        λ _. Keeps-statement _ (insert_event-IsConsistent _ _)

pub mark_dead_and_requeue-IsConsistent :
    (now : Instant) (wid : Uuid) (e : ℕ) → Keeps IsConsistent (mark_dead_and_requeue now wid e)
unfolding mark_dead_and_requeue
mark_dead_and_requeue-IsConsistent now wid e = Keeps-begin_func (
    Keeps-bind (Keeps-statement _ (mark_dead-IsConsistent wid e))
      λ n. Keeps-if (n == 0) (λ _. Keeps-pure tt) (λ _. requeue_all-IsConsistent now wid e))

freed-KeepsIdentity : (p : Worker → Bool) → KeepsIdentity p freed
unfolding freed
freed-KeepsIdentity p = harmless (λ w. refl) (λ w. refl) (λ w _ h. ground arith) (λ w. refl)

pub free_worker-IsConsistent : (wid : Uuid) (e : ℕ) → Keeps IsConsistent (free_worker wid e)
unfolding free_worker
free_worker-IsConsistent wid e =
    Keeps-statement _ (λ db c. IsConsistent-update_workers (freed-KeepsIdentity _) db c)

change_drain-IsConsistent :
    (wid : Uuid) (change : Worker → Worker) (db : Db)
    → KeepsIdentity (live_with_id wid) change
    → IsConsistent db
    → IsConsistent (change_drain wid change db).1
unfolding change_drain
change_drain-IsConsistent wid change db k c =
    elim (Option-cases (query_row (live_with_id wid) db.workers)) [
      | inl gone ↦ rw (gone, change_drain) c
      | inr (w, found) ↦ rw (found, change_drain) (IsConsistent-update_workers k db c)
    ]

forgive_no_rows-Keeps : {A : Type 0} (r : Result A) → Keeps IsConsistent (forgive_no_rows r)
unfolding forgive_no_rows
forgive_no_rows-Keeps (ok a) = Keeps-pure (some a)
forgive_no_rows-Keeps (err no_rows) = Keeps-pure none
forgive_no_rows-Keeps (err e) = Keeps-throw e

drain_transaction-IsConsistent :
    (wid : Uuid) (change : Worker → Worker) (event : ℕ → EventType)
    → KeepsIdentity (live_with_id wid) change
    → Keeps IsConsistent (drain_transaction wid change event)
unfolding drain_transaction
drain_transaction-IsConsistent wid change event k =
    Keeps-bind
      (Keeps-attempt (
        Keeps-begin_func (
          Keeps-bind (Keeps-statement _ (λ db c. change_drain-IsConsistent wid change db k c))
            λ r. Keeps-bind (Keeps-statement _ (insert_event-IsConsistent _ _)) λ _. Keeps-pure r)))
      λ r. forgive_no_rows-Keeps r

pub request_drain-IsConsistent : (wid : Uuid) → Keeps IsConsistent (request_drain wid)
unfolding request_drain start_draining
request_drain-IsConsistent wid =
    drain_transaction-IsConsistent wid start_draining _
      (harmless (λ w. refl) (λ w. refl) (λ w _ h. h) (λ w. refl))

pub resume_drain-IsConsistent : (wid : Uuid) → Keeps IsConsistent (resume_drain wid)
unfolding resume_drain stop_draining
resume_drain-IsConsistent wid =
    drain_transaction-IsConsistent wid stop_draining _
      (harmless (λ w. refl) (λ w. refl) (λ w _ h. h) (λ w. refl))
