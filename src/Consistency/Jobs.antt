-- ===== src/Consistency/Jobs.antt =====
-- The operations of JobStore keep the database consistent, whichever of their calls fail.
use fleetforge.Base.{
  ℕ, ◌≡◌, refl, String, Bool, true, false, Option, List, arith, Bool-cases, inl, inr, not, ◌&&◌,
  str_eq,
}
use fleetforge.Schema.{Uuid, Instant, Worker, Job, JobStatus, is_held, Db}
use fleetforge.World.{Result, ok, err, job_not_found}
use fleetforge.Effects.{
  Keeps, Keeps-statement, Keeps-pure, Keeps-throw, Keeps-attempt, Keeps-bind, Keeps-if,
}
use fleetforge.Consistency.{is_waiting, IsConsistent}
use fleetforge.Consistency.Statements.{KeepsKey, IsConsistent-update_jobs, IsConsistent-insert_job}
use fleetforge.JobStore.Create.{
  CreateJobParams, default_max_retries, new_job, insertable, insert_job, get_by_idempotency_key,
  create_after_lookup, create,
}
use fleetforge.JobStore.Transitions.{mark_running, finish_job, complete, mark_queued_from_retry}

-- A terminal status, such as a worker reports.
abbrev pub is_final : JobStatus → Bool
is_final s = not (is_held s) && not (is_waiting s)

insert_job-IsConsistent :
    (new_id : Uuid) (now : Instant) (p : CreateJobParams) (db : Db)
    → IsConsistent db
    → IsConsistent (insert_job new_id now p db).1
unfolding insert_job new_job default_max_retries
insert_job-IsConsistent new_id now p db c = elim (Bool-cases (insertable new_id now p db)) [
  | inr refused ↦ rw refused c
  | inl passed ↦ rw passed (
      IsConsistent-insert_job _ db
        (record {
          held = λ e. cc;
          free = λ e. (refl, refl);
          parked = λ e. cc;
          budget = ground arith;
        })
        refl (unfold insertable in ground arith) c)
]

create_after_lookup-IsConsistent :
    (new_id : Uuid) (now : Instant) (p : CreateJobParams) (r : Result Job)
    → Keeps IsConsistent (create_after_lookup new_id now p r)
unfolding create_after_lookup
create_after_lookup-IsConsistent new_id now p (ok j) = Keeps-pure (j, true)
create_after_lookup-IsConsistent new_id now p (err job_not_found) =
    Keeps-bind (Keeps-statement _ (insert_job-IsConsistent new_id now p))
      (λ j. Keeps-pure (j, false))
create_after_lookup-IsConsistent new_id now p (err e) = Keeps-throw e

pub create-IsConsistent :
    (new_id : Uuid) (now : Instant) (p : CreateJobParams) → Keeps IsConsistent (create new_id now p)
unfolding create
create-IsConsistent new_id now p =
    Keeps-if (str_eq p.idempotency_key "")
      (λ _. create_after_lookup-IsConsistent new_id now p (err job_not_found))
      λ _.
        Keeps-bind (Keeps-attempt (unfold get_by_idempotency_key in Keeps-statement _ (λ db c. c)))
          (create_after_lookup-IsConsistent new_id now p)

pub mark_running-IsConsistent :
    (now : Instant) (jid : Uuid) (e : ℕ) → Keeps IsConsistent (mark_running now jid e)
unfolding mark_running
mark_running-IsConsistent now jid e = Keeps-statement _ (λ db c.
    IsConsistent-update_jobs db
      (record {
        sound = λ j hit s. ground arith;
        fenced = λ j _ h. h;
        same = record { same_id = λ j. refl; same_created_at = λ j. refl };
      })
      c)

pub finish_job-KeepsKey :
    (ws : List Worker) (p : Job → Bool) (now : Instant) (s : JobStatus) (log_ref : Option String)
    → is_final s ≡ true
    → KeepsKey ws p (finish_job now s log_ref)
unfolding finish_job
finish_job-KeepsKey ws p now s log_ref final = record {
  sound = λ j hit h. record {
    held = λ e. ground arith;
    free = λ e. ground arith;
    parked = λ e. ground arith;
    budget = h.budget;
  };
  fenced = λ j _ h. h;
  same = record { same_id = λ j. refl; same_created_at = λ j. refl };
}

pub complete-IsConsistent :
    (now : Instant) (jid : Uuid) (created : Instant) (e : ℕ) (s : JobStatus) (log_ref : String)
    → is_final s ≡ true
    → Keeps IsConsistent (complete now jid created e s log_ref)
unfolding complete
complete-IsConsistent now jid created e s log_ref final =
    Keeps-statement _
      (λ db c. IsConsistent-update_jobs db (finish_job-KeepsKey _ _ now s _ final) c)

pub mark_queued_from_retry-IsConsistent :
    (jid : Uuid) (created : Instant) → Keeps IsConsistent (mark_queued_from_retry jid created)
unfolding mark_queued_from_retry
mark_queued_from_retry-IsConsistent jid created = Keeps-statement _ (λ db c.
    IsConsistent-update_jobs db
      (record {
        sound = λ j hit s. ground arith;
        fenced = λ j _ h. h;
        same = record { same_id = λ j. refl; same_created_at = λ j. refl };
      })
      c)
