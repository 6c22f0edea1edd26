-- ===== src/WorkerStore/Assign.antt =====
-- Candidates, the assignment transaction and its inverse, internal/store/postgres/workers.go.
use fleetforge.Base.{
  ℕ, ◌+◌, ◌-◌, String, Bool, true, false, ◌&&◌, ◌||◌, not, Option, none, some, List, [], ◌∷◌, ◌==◌,
  ltb, leb, if◌then◌else◌, str_eq, is_some, map, select, query_row, update, count,
}
use fleetforge.Schema.{
  Uuid, Instant, WorkerStatus, Worker, ready, busy, draining, worker_status_eq, Job, queued,
  assigned, job_status_eq, Db,
}
use fleetforge.World.{
  Result, ok, err, call_failed, job_assign_race_lost, Action, pure, throw, attempt, statement,
  begin_func, ◌>>=◌,
}
use fleetforge.Statements.{with_epoch, job_at}

pub record Candidate : Type 0 where
  pub id : Uuid
  pub epoch : ℕ
  pub capabilities : List String
  pub labels : List (String × String)
  pub available_capacity : ℕ
  pub capacity_slots : ℕ

unfoldable pub mem_text : String → List String → Bool
mem_text s [] = false
mem_text s (x ∷ xs) = str_eq x s || mem_text s xs

-- capabilities @> $1::text[].
unfoldable pub contains_all : List String → List String → Bool
contains_all capabilities [] = true
contains_all capabilities (r ∷ required) =
    mem_text r capabilities && contains_all capabilities required

abbrev pub is_candidate : List String → Worker → Bool
is_candidate required w =
    worker_status_eq w.status ready
    && ltb 0 w.available_capacity
    && contains_all w.capabilities required

abbrev pub to_candidate : Worker → Candidate
to_candidate w = record {
  id = w.id;
  epoch = w.epoch;
  capabilities = w.capabilities;
  labels = w.labels;
  available_capacity = w.available_capacity;
  capacity_slots = w.capacity_slots;
}

unfoldable pub list_ready_candidates : List String → Action (List Candidate)
list_ready_candidates required =
    statement λ db. (ok (map to_candidate (select (is_candidate required) db.workers)), db)

-- WHERE id = $3 AND epoch = $4 AND status = 'READY' AND available_capacity > 0.
abbrev pub assignable : Uuid → ℕ → Worker → Bool
assignable wid e w =
    with_epoch wid e w && worker_status_eq w.status ready && ltb 0 w.available_capacity

unfoldable pub taken : Uuid → Instant → Worker → Worker
taken jid created w = record w {
  status = busy;
  current_job_id = some jid;
  current_job_created_at = some created;
  available_capacity = w.available_capacity - 1;
}

unfoldable pub assigned_to : Uuid → ℕ → Job → Job
assigned_to wid e j = record j {
  status = assigned;
  worker_id = some wid;
  assignment_epoch = some e;
}

-- The foreign key on (current_job_id, current_job_created_at) refuses a job that is not there.
unfoldable pub take_worker : Uuid → Instant → Uuid → ℕ → Db → Result ℕ × Db
take_worker jid created wid e db =
    let affected = count (assignable wid e) db.workers in
    if ltb 0 affected && not (is_some (query_row (job_at jid created) db.jobs))
    then (err call_failed, db)
    else (
      ok affected,
      record db { workers = update (assignable wid e) (taken jid created) db.workers },
    )

-- WHERE id = $3 AND created_at = $4 AND status = 'QUEUED'.
abbrev pub is_queued_at : Uuid → Instant → Job → Bool
is_queued_at jid created j = job_at jid created j && job_status_eq j.status queued

unfoldable pub take_job : Uuid → Instant → Uuid → ℕ → Db → Result ℕ × Db
take_job jid created wid e db = (
  ok (count (is_queued_at jid created) db.jobs),
  record db { jobs = update (is_queued_at jid created) (assigned_to wid e) db.jobs },
)

-- The transaction's body, which sets `ok`; the error forces the worker's update to roll back.
unfoldable pub assign_body : Uuid → Instant → Uuid → ℕ → Action Bool
assign_body jid created wid e = do
  taken ← statement (take_worker jid created wid e)
  if not (taken == 1) then pure false else do
    moved ← statement (take_job jid created wid e)
    if not (moved == 1) then throw job_assign_race_lost else pure true

-- `if errors.Is(err, errJobAssignRaceLost) { return false, nil }`.
unfoldable pub forgive_race : Result Bool → Action Bool
forgive_race (ok b) = pure b
forgive_race (err job_assign_race_lost) = pure false
forgive_race (err e) = throw e

unfoldable pub assign_job : Uuid → Instant → Uuid → ℕ → Action Bool
assign_job jid created wid e = do
  result ← attempt (begin_func (assign_body jid created wid e))
  forgive_race result

-- CASE WHEN drain_requested THEN 'DRAINING' ELSE 'READY' END, and LEAST(available_capacity + 1, …).
unfoldable pub freed : Worker → Worker
freed w = record w {
  status = if w.drain_requested then draining else ready;
  current_job_id = none;
  current_job_created_at = none;
  available_capacity =
      if leb (w.available_capacity + 1) w.capacity_slots
      then w.available_capacity + 1
      else w.capacity_slots;
}

-- The RETURNING clause reads the updated row; `none` is the epoch mismatch.
unfoldable pub free_worker : Uuid → ℕ → Action (Option (ℕ × WorkerStatus))
free_worker wid e = statement λ db. (
  ok (elim (query_row (with_epoch wid e) db.workers) [
    | none ↦ none
    | some w ↦ some ((freed w).available_capacity, (freed w).status)
  ]),
  record db { workers = update (with_epoch wid e) freed db.workers },
)
