-- ===== src/Consistency/Row/Stores.antt =====
-- The operations on the other tables leave every job alone, internal/store/postgres.
use fleetforge.Base.{ℕ, refl, List, Option, none, some, arith}
use fleetforge.Schema.{Uuid, Instant, Worker, WorkerStatus, Job, RetryHistory, EventType}
use fleetforge.World.{Result, ok, err, no_rows, statement}
use fleetforge.Effects.{Keeps, Keeps-pure, Keeps-throw, Keeps-attempt, Keeps-bind, Keeps-begin_func}
use fleetforge.Statements.{insert_event, next_attempt, insert_history}
use fleetforge.WorkerStore.Register.{
  RegisterWorkerParams, upsert_worker, promote_to_ready, register,
}
use fleetforge.WorkerStore.Liveness.{
  current_job_created_at, lookup_created_at, set_heartbeat, update_heartbeat,
}
use fleetforge.WorkerStore.Assign.{free_worker}
use fleetforge.WorkerStore.Drain.{change_drain, drain_transaction, forgive_no_rows}
use fleetforge.Consistency.Row.{other_table-Keeps}

module _ (Q : List Job → Type 0) where
  pub insert_event-Keeps :
      (wid : Uuid) (event : EventType)
      → Keeps (λ db. Q db.jobs) (statement (insert_event wid event))
  unfolding insert_event
  insert_event-Keeps wid event = other_table-Keeps Q _ (λ db. refl)

  pub next_attempt-Keeps : (jid : Uuid) → Keeps (λ db. Q db.jobs) (statement (next_attempt jid))
  unfolding next_attempt
  next_attempt-Keeps jid = other_table-Keeps Q _ (λ db. refl)

  pub insert_history-Keeps :
      (h : RetryHistory) → Keeps (λ db. Q db.jobs) (statement (insert_history h))
  unfolding insert_history
  insert_history-Keeps h = other_table-Keeps Q _ (λ db. ground arith)

  pub register-Keeps :
      (new_id : Uuid) (now : Instant) (p : RegisterWorkerParams)
      → Keeps (λ db. Q db.jobs) (register new_id now p)
  unfolding register upsert_worker promote_to_ready
  register-Keeps new_id now p = Keeps-begin_func (
      Keeps-bind (other_table-Keeps Q _ (λ db. ground arith)) λ r.
        Keeps-bind (insert_event-Keeps _ _)
          λ _. Keeps-bind (other_table-Keeps Q _ (λ db. refl)) (λ _. Keeps-pure r))

  current_job-Keeps : (o : Option Uuid) → Keeps (λ db. Q db.jobs) (current_job_created_at o)
  unfolding current_job_created_at lookup_created_at
  current_job-Keeps none = Keeps-pure none
  current_job-Keeps (some jid) = other_table-Keeps Q _ (λ db. refl)

  pub update_heartbeat-Keeps :
      (now : Instant) (wid : Uuid) (e : ℕ) (s : WorkerStatus) (jid : Option Uuid)
      → Keeps (λ db. Q db.jobs) (update_heartbeat now wid e s jid)
  unfolding update_heartbeat set_heartbeat
  update_heartbeat-Keeps now wid e s jid =
      Keeps-bind (current_job-Keeps jid) (λ t. other_table-Keeps Q _ (λ db. refl))

  pub free_worker-Keeps : (wid : Uuid) (e : ℕ) → Keeps (λ db. Q db.jobs) (free_worker wid e)
  unfolding free_worker
  free_worker-Keeps wid e = other_table-Keeps Q _ (λ db. refl)

  forgiven-Keeps : {A : Type 0} (r : Result A) → Keeps (λ db. Q db.jobs) (forgive_no_rows r)
  unfolding forgive_no_rows
  forgiven-Keeps (ok a) = Keeps-pure _
  forgiven-Keeps (err no_rows) = Keeps-pure _
  forgiven-Keeps (err e) = Keeps-throw e

  pub drain_transaction-Keeps :
      (wid : Uuid) (change : Worker → Worker) (event : ℕ → EventType)
      → Keeps (λ db. Q db.jobs) (drain_transaction wid change event)
  unfolding drain_transaction change_drain
  drain_transaction-Keeps wid change event =
      Keeps-bind
        (Keeps-attempt (
          Keeps-begin_func (
            Keeps-bind (other_table-Keeps Q _ (λ db. ground arith))
              λ r. Keeps-bind (insert_event-Keeps _ _) (λ _. Keeps-pure r))))
        forgiven-Keeps
