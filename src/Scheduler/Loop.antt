-- ===== src/Scheduler/Loop.antt =====
-- The matching loop, internal/scheduler/loop.go.
use fleetforge.Base.{ℕ, Bool, true, false, not, Option, none, some, List, if◌then◌else◌}
use fleetforge.Base.Int.{sub_ℕ}
use fleetforge.Schema.{Uuid, Job, queued, busy, job_status_eq}
use fleetforge.World.{
  Message, Result, ok, err, job_not_found, Action, pure, attempt, for_each, ◌>>=◌, ◌>>◌,
}
use fleetforge.WorkerStore.Assign.{Candidate, list_ready_candidates, assign_job}
use fleetforge.JobStore.Create.{get}
use fleetforge.RedisStore.Cache.{set_state}
use fleetforge.RedisStore.Queue.{read_new, read_pending, ack}
use fleetforge.Scheduler.Select.{Floats, select_least_loaded}

-- `if err := …; err != nil { log }`.
abbrev pub ignore : Action (Unit {0}) → Action (Unit {0})
ignore m = do r ← attempt m; pure tt

-- After a won assignment: the cache mirrors it, and the entry is acknowledged.
unfoldable pub after_assignment : ℕ → ℕ → Job → Candidate → Action (Unit {0})
after_assignment p n j chosen = do
  ignore (
      set_state chosen.id (record {
        epoch = chosen.epoch;
        status = busy;
        current_job_id = some j.id;
        available_capacity = sub_ℕ chosen.available_capacity 1;
        last_pg_flush_unix = 0;
      }))
  ignore (ack p n)

-- What follows AssignJob: an error or a lost race leaves the entry unacknowledged.
unfoldable pub settle : ℕ → ℕ → Job → Candidate → Result Bool → Action (Unit {0})
settle p n j chosen (ok true) = after_assignment p n j chosen
settle p n j chosen (ok false) = pure tt
settle p n j chosen (err e) = pure tt

module _ (floats : Floats) where
  -- With no capable worker the entry stays pending and the job stays QUEUED.
  unfoldable pub assign_to : ℕ → ℕ → Job → Option Candidate → Action (Unit {0})
  assign_to p n j none = pure tt
  assign_to p n j (some chosen) = do
    assigned ← attempt (assign_job j.id j.created_at chosen.id chosen.epoch)
    settle p n j chosen assigned

  unfoldable pub match_candidates : ℕ → ℕ → Job → Result (List Candidate) → Action (Unit {0})
  match_candidates p n j (err e) = pure tt
  match_candidates p n j (ok candidates) = assign_to p n j (select_least_loaded floats candidates)

  -- What follows jobs.Get.
  unfoldable pub match_job : ℕ → Message → Result Job → Action (Unit {0})
  match_job p m (err job_not_found) = ignore (ack p m.number)
  match_job p m (err e) = pure tt
  match_job p m (ok j) = if not (job_status_eq j.status queued) then ignore (ack p m.number) else do
    candidates ← attempt (list_ready_candidates m.required_capabilities)
    match_candidates p m.number j candidates

  unfoldable pub process_job : ℕ → Message → Option Uuid → Action (Unit {0})
  process_job p m none = ignore (ack p m.number)
  process_job p m (some jid) = do j ← attempt (get jid); match_job p m j

  unfoldable pub process_message : ℕ × Message → Action (Unit {0})
  process_message (p, m) = process_job p m m.job_id

  unfoldable pub process_batch : Result (List (ℕ × Message)) → Action (Unit {0})
  process_batch (err e) = pure tt
  process_batch (ok batch) = for_each batch process_message

  unfoldable pub read_and_process : Action (List (ℕ × Message)) → Action (Unit {0})
  read_and_process read = do batch ← attempt read; process_batch batch

  -- New entries, then this consumer's pending ones.
  unfoldable pub tick : Action (Unit {0})
  tick = do read_and_process read_new; read_and_process read_pending
