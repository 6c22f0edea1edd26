-- ===== src/WorkerStore/Drain.antt =====
-- Draining and listing workers, internal/store/postgres/workers.go.
use fleetforge.Base.{
  ℕ, Bool, true, false, ◌&&◌, not, Option, none, some, List, [], ◌∷◌, ◌==◌, leb, if◌then◌else◌,
  take, select, query_row, update, count, order_by,
}
use fleetforge.Base.Int.{ℤ, pos, leb_ℤ, pos_part}
use fleetforge.Schema.{
  Uuid, WorkerStatus, Worker, ready, draining, worker_status_eq, is_live, Db, EventType,
  drain_requested, drain_resumed,
}
use fleetforge.World.{
  Result, ok, err, no_rows, Action, pure, throw, attempt, statement, begin_func, ◌>>=◌, ◌>>◌,
}
use fleetforge.Statements.{insert_event}

pub record DrainResult : Type 0 where
  pub epoch : ℕ
  pub status : WorkerStatus
  pub current_job_id : Option Uuid
  pub available_capacity : ℕ

-- WHERE id = $1 AND status NOT IN ('OFFLINE', 'DEAD').
abbrev pub live_with_id : Uuid → Worker → Bool
live_with_id wid w = w.id == wid && is_live w.status

abbrev pub to_drain_result : Worker → DrainResult
to_drain_result w = record {
  epoch = w.epoch;
  status = w.status;
  current_job_id = w.current_job_id;
  available_capacity = w.available_capacity;
}

-- UPDATE … RETURNING epoch, status, current_job_id, available_capacity.
unfoldable pub change_drain : Uuid → (Worker → Worker) → Db → Result DrainResult × Db
change_drain wid change db = elim (query_row (live_with_id wid) db.workers) [
  | none ↦ (err no_rows, db)
  | some w ↦ (
    ok (to_drain_result (change w)),
    record db { workers = update (live_with_id wid) change db.workers },
  )
]

unfoldable pub start_draining : Worker → Worker
start_draining w = record w {
  drain_requested = true;
  status = if worker_status_eq w.status ready then draining else w.status;
}

unfoldable pub stop_draining : Worker → Worker
stop_draining w = record w {
  drain_requested = false;
  status = if worker_status_eq w.status draining then ready else w.status;
}

-- `if errors.Is(err, pgx.ErrNoRows) { return DrainResult{}, false, nil }`.
unfoldable pub forgive_no_rows : {A : Type 0} → Result A → Action (Option A)
forgive_no_rows (ok a) = pure (some a)
forgive_no_rows (err no_rows) = pure none
forgive_no_rows (err e) = throw e

-- The two transactions differ in the columns that they set and in the event.
unfoldable pub drain_transaction :
    Uuid → (Worker → Worker) → (ℕ → EventType) → Action (Option DrainResult)
drain_transaction wid change event = do
  result ← attempt (
      begin_func do
        r ← statement (change_drain wid change)
        statement (insert_event wid (event r.epoch))
        pure r)
  forgive_no_rows result

unfoldable pub request_drain : Uuid → Action (Option DrainResult)
request_drain wid = drain_transaction wid start_draining drain_requested

unfoldable pub resume_drain : Uuid → Action (Option DrainResult)
resume_drain wid = drain_transaction wid stop_draining drain_resumed

-- status = 'READY' AND available_capacity = capacity_slots AND drain_requested = false.
abbrev pub is_idle : Worker → Bool
is_idle w =
    worker_status_eq w.status ready
    && w.available_capacity == w.capacity_slots
    && not w.drain_requested

-- ORDER BY registered_at ASC LIMIT 1; `none` is the empty string.
unfoldable pub pick_drain_candidate : Action (Option Uuid)
pick_drain_candidate = statement λ db. (
  ok (elim (order_by (λ v w. leb v.registered_at w.registered_at) (select is_idle db.workers)) [
    | [] ↦ none
    | w ∷ ws ↦ some w.id
  ]),
  db,
)

-- `if limit <= 0 || limit > 1000 { limit = 100 }`.
unfoldable pub clamp_limit : ℤ → ℕ
clamp_limit limit =
    if leb_ℤ limit (pos 0) then 100 else if leb_ℤ limit (pos 1000) then pos_part limit else 100

abbrev matches_status : Option WorkerStatus → Worker → Bool
matches_status none w = true
matches_status (some s) w = worker_status_eq w.status s

-- ORDER BY registered_at DESC LIMIT; a filter that is no worker_status fails in Postgres.
unfoldable pub list_workers : Option WorkerStatus → ℤ → Action (List Worker)
list_workers status limit = statement λ db. (
  ok (
      take (clamp_limit limit) (
        order_by (λ v w. leb w.registered_at v.registered_at)
          (select (matches_status status) db.workers))),
  db,
)

-- SELECT status, COUNT(*) … GROUP BY status; a status that no worker has reads as 0 in Go.
unfoldable pub count_by_status : Action (WorkerStatus → ℕ)
count_by_status =
    statement λ db. (ok (λ s. count (λ w. worker_status_eq w.status s) db.workers), db)
