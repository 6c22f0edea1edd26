-- ===== src/Examples/Stores.antt =====
-- The theorems on internal/store/postgres, at concrete inputs.
use fleetforge.Base.{
  order_by, insert_by, ◌≡◌, ◌≢◌, refl, true, false, Option, none, some, [], ◌∷◌, arith, All, select,
  query_row, update, count,
}
use fleetforge.Base.Int.{pos}
use fleetforge.Schema.{Db, RetryHistory, JobStatus, WorkerStatus, retrying}
use fleetforge.World.{
  Error, err, World, ok, pure, throw, attempt, statement, and_then, ◌>>=◌, begin_func, finish,
}
use fleetforge.Statements.{insert_event, insert_history}
use fleetforge.Consistency.{IsConsistent}
use fleetforge.Consistency.Numbering.{insert_history-next_attempt}
use fleetforge.WorkerStore.Assign.{
  Candidate, contains_all, mem_text, taken, assigned_to, take_worker, take_job, assign_body,
  forgive_race, assign_job, list_ready_candidates, to_candidate,
}
use fleetforge.WorkerStore.Assigning.{AllOrNothing, assign_job-atomic}
use fleetforge.WorkerStore.Exclusive.{assign_job-exclusive}
use fleetforge.WorkerStore.Drain.{
  DrainResult, change_drain, start_draining, forgive_no_rows, drain_transaction, request_drain,
  pick_drain_candidate,
}
use fleetforge.WorkerStore.Draining.{request_drain-hides}
use fleetforge.WorkerStore.Idle.{IsOldestIdle, pick_drain_candidate-IsOldestIdle}
use fleetforge.JobStore.Backoff.{retry_backoff, next_retries}
use fleetforge.JobStore.Delays.{capped_delay, retry_backoff-capped, retry_backoff-wraps}
use fleetforge.JobStore.Transitions.{
  complete, finish_job, retry_or_fail, lookup_retries, decide_and_log, retry_decision, set_job,
}
use fleetforge.JobStore.Once.{complete-once}
use fleetforge.JobStore.Budget.{IsDecided, retry_or_fail-IsDecided}
use fleetforge.Statements.{next_attempt, same_attempt, of_job}
use fleetforge.WorkerStore.Liveness.{reapable, mark_dead_and_requeue}
use fleetforge.WorkerStore.Reaping.{IsRetired, mark_dead_and_requeue-IsRetired}
use fleetforge.JobStore.Create.{
  CreateJobParams, create, create_after_lookup, get_by_idempotency_key, insert_job, insertable,
  new_job,
}
use fleetforge.JobStore.Idempotent.{NothingCreated, create-NothingCreated}
use fleetforge.Examples.Fleet.{worker, fleet, fleet-IsConsistent, held}

-- AssignJob on a waiting job and a READY worker.
assign_job-atomic_example : AllOrNothing 5 100 7 2 fleet.db (assign_job 5 100 7 2 fleet)
assign_job-atomic_example = assign_job-atomic 5 100 7 2 fleet fleet-IsConsistent.ids_differ

assigned_first : (assign_job 5 100 7 2 fleet).0 ≡ ok true
unfolding assign_job assign_body forgive_race take_worker take_job taken assigned_to begin_func
    finish statement attempt ◌>>=◌ and_then pure throw count update query_row
assigned_first = refl

abbrev after_first : World
after_first = (assign_job 5 100 7 2 fleet).1

assign_job-exclusive_example :
    (((assign_job 5 100 8 1 after_first).0 ≢ ok true)
      × ((assign_job 5 100 8 1 after_first).1.db ≡ after_first.db))
    × (((assign_job 6 100 7 2 after_first).0 ≢ ok true)
        × ((assign_job 6 100 7 2 after_first).1.db ≡ after_first.db))
assign_job-exclusive_example =
    assign_job-exclusive 5 100 7 2 fleet after_first fleet-IsConsistent assigned_first refl 8 1 6
      100

completed : (complete 200 5 100 2 JobStatus.success "" held).0 ≡ ok true
unfolding complete finish_job statement count update
completed = refl

abbrev after_completion : World
after_completion = (complete 200 5 100 2 JobStatus.success "" held).1

complete-once_example :
    (((complete 300 5 100 2 JobStatus.cancelled "" after_completion).0 ≢ ok true)
      × ((complete 300 5 100 2 JobStatus.cancelled "" after_completion).1.db ≡ after_completion.db))
    × (((o : Option JobStatus)
          → (retry_or_fail 300 5 100 2 (some 7) "late" "" after_completion).0 ≡ ok o
          → o ≡ none)
        × ((retry_or_fail 300 5 100 2 (some 7) "late" "" after_completion).1.db
            ≡ after_completion.db))
complete-once_example =
    complete-once 200 5 100 2 JobStatus.success "" held after_completion refl completed refl 300
      JobStatus.cancelled (some 7) "late" ""

abbrev drain_result : DrainResult
drain_result = record {
  epoch = 2;
  status = WorkerStatus.draining;
  current_job_id = none;
  available_capacity = 2;
}

abbrev drained_fleet : World
drained_fleet = (request_drain 7 fleet).1

drain_accepted : (request_drain 7 fleet).0 ≡ ok (some drain_result)
unfolding request_drain drain_transaction change_drain start_draining forgive_no_rows insert_event
    begin_func finish statement attempt ◌>>=◌ and_then pure throw update query_row
drain_accepted = refl

listed_after_drain :
    (list_ready_candidates ("docker" ∷ []) drained_fleet).0 ≡ ok (to_candidate (worker 8 1 4) ∷ [])
unfolding list_ready_candidates select contains_all mem_text request_drain drain_transaction
    change_drain start_draining forgive_no_rows insert_event begin_func finish statement attempt
    ◌>>=◌ and_then pure throw update query_row
listed_after_drain = refl

request_drain-hides_example : All (λ (c : Candidate). c.id ≢ 7) (to_candidate (worker 8 1 4) ∷ [])
request_drain-hides_example =
    request_drain-hides 7 fleet drained_fleet drain_result drain_accepted refl ("docker" ∷ [])
      (to_candidate (worker 8 1 4) ∷ []) listed_after_drain

-- Both workers are idle and were registered at the same instant: the first is picked.
picked_first : (pick_drain_candidate fleet).0 ≡ ok (some 7)
unfolding pick_drain_candidate select order_by insert_by statement
picked_first = refl

pick_drain_candidate-IsOldestIdle_example :
    IsOldestIdle (some 7) fleet.db.workers × ((pick_drain_candidate fleet).1.db ≡ fleet.db)
pick_drain_candidate-IsOldestIdle_example =
    pick_drain_candidate-IsOldestIdle fleet (some 7) picked_first

-- The row of a first failure, before it is numbered.
abbrev failure : RetryHistory
failure = record {
  job_id = 5;
  job_created_at = 100;
  attempt_number = 0;
  worker_id = some 7;
  error_message = some "exit status 1";
  finished_at = 300;
}

-- The job has failed once.
abbrev failed_once : Db
failed_once = record fleet.db { history = record failure { attempt_number = 1 } ∷ [] }

failed_once-IsConsistent : IsConsistent failed_once
unfolding count
failed_once-IsConsistent = record {
  jobs_sound = fleet-IsConsistent.jobs_sound;
  workers_sound = fleet-IsConsistent.workers_sound;
  ids_differ = fleet-IsConsistent.ids_differ;
  keys_differ = fleet-IsConsistent.keys_differ;
  numbered = (refl, tt);
  fenced = fleet-IsConsistent.fenced;
}

second_counted : (next_attempt 5 failed_once).0 ≡ ok 2
unfolding next_attempt count
second_counted = refl

insert_history-next_attempt_example :
    (insert_history (record failure { attempt_number = 2 }) (next_attempt 5 failed_once).1 ≡ (
      ok tt,
      record failed_once { history = record failure { attempt_number = 2 } ∷ failed_once.history },
    ))
    × All (λ x. same_attempt 5 2 x ≡ false) failed_once.history
    × (count (of_job 5) (record failure { attempt_number = 2 } ∷ failed_once.history) ≡ 2)
insert_history-next_attempt_example =
    insert_history-next_attempt failure failed_once 2 failed_once-IsConsistent second_counted

retried : (retry_or_fail 300 5 100 2 (some 7) "exit status 1" "" held).0 ≡ ok (some retrying)
unfolding retry_or_fail lookup_retries decide_and_log retry_decision next_attempt set_job
    insert_history next_retries begin_func finish statement ◌>>=◌ and_then pure query_row update
    count
retried = refl

-- The first of three retries.
retry_or_fail-IsDecided_example :
    IsDecided 300 5 100 2
      (some 7)
      "exit status 1"
      ""
      retrying
      held.db
      (retry_or_fail 300 5 100 2 (some 7) "exit status 1" "" held).1.db
retry_or_fail-IsDecided_example =
    retry_or_fail-IsDecided 300 5 100 2 (some 7) "exit status 1" "" held retrying retried

retry_backoff-capped_example : retry_backoff (pos 6) ≡ pos (capped_delay 6)
retry_backoff-capped_example = retry_backoff-capped 6 (omega arith) (omega arith)

retry_backoff-wraps_example : retry_backoff (pos 60) ≡ pos 0
retry_backoff-wraps_example = retry_backoff-wraps 60 (omega arith)

one_live : count (reapable 7 2) held.db.workers ≢ 0
unfolding count
one_live h = omega (arith, h)

mark_dead_and_requeue-IsRetired_example :
    ((mark_dead_and_requeue 300 7 2 held).0 ≡ ok tt
      → IsRetired 300 7 2 (mark_dead_and_requeue 300 7 2 held).1.db)
    × ((x : Error)
        → (mark_dead_and_requeue 300 7 2 held).0 ≡ err x
        → (mark_dead_and_requeue 300 7 2 held).1.db ≡ held.db)
mark_dead_and_requeue-IsRetired_example = mark_dead_and_requeue-IsRetired 300 7 2 held one_live

abbrev keyed : CreateJobParams
keyed = record {
  priority = pos 3;
  repository = "fleetforge";
  branch = "main";
  commit_sha = "abc";
  labels = [];
  required_capabilities = [];
  max_retries = pos 0;
  idempotency_key = "build-17";
}

created_once : (create 6 200 keyed fleet).0 ≡ ok (new_job 6 200 keyed, false)
unfolding create create_after_lookup get_by_idempotency_key insert_job insertable new_job select
    order_by insert_by query_row statement attempt ◌>>=◌ and_then pure throw
created_once = refl

create-NothingCreated_example :
    NothingCreated "build-17"
      (create 6 200 keyed fleet).1
      (create 9 400 (record keyed { branch = "release" }) (create 6 200 keyed fleet).1)
create-NothingCreated_example =
    create-NothingCreated 6 200 keyed (new_job 6 200 keyed) fleet (create 6 200 keyed fleet).1 refl
      created_once refl 9 400 (record keyed { branch = "release" }) refl
