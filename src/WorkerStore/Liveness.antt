-- ===== src/WorkerStore/Liveness.antt =====
-- Heartbeats and the dead-worker sweep's statements, internal/store/postgres/workers.go.
use fleetforge.Base.{
  ℕ, ◌+◌, ◌*◌, Bool, false, ◌&&◌, Option, none, some, List, ◌==◌, ltb, if◌then◌else◌, opt_eq,
  length, map, select, query_row, update, count,
}
use fleetforge.Schema.{
  Uuid, Instant, WorkerStatus, Worker, dead, is_live, Job, queued, is_held, Db, marked_dead,
}
use fleetforge.World.{
  Result, ok, err, no_rows, Action, pure, statement, begin_func, for_each, ◌>>=◌, ◌>>◌,
}
use fleetforge.Statements.{
  has_id, with_epoch, job_with_id, job_at, next_attempt, insert_history, insert_event,
}

-- SELECT epoch, status, drain_requested FROM workers WHERE id = $1.
unfoldable pub get_epoch_and_status : Uuid → Action (ℕ × WorkerStatus × Bool)
get_epoch_and_status wid = statement λ db. (
  elim (query_row (has_id wid) db.workers) [
    | none ↦ err no_rows
    | some w ↦ ok (w.epoch, w.status, w.drain_requested)
  ],
  db,
)

-- SELECT created_at FROM jobs WHERE id = $1.
unfoldable pub lookup_created_at : Uuid → Db → Result (Option Instant) × Db
lookup_created_at jid db = (
  elim (query_row (job_with_id jid) db.jobs) [
    | none ↦ err no_rows
    | some j ↦ ok (some j.created_at)
  ],
  db,
)

unfoldable pub set_heartbeat :
    Instant → Uuid → ℕ → WorkerStatus → Option Uuid → Option Instant → Db → Result Bool × Db
set_heartbeat now wid e db_status job_id job_created db = (
  ok (count (with_epoch wid e) db.workers == 1),
  record db {
    workers =
        update (with_epoch wid e)
          (λ w. record w {
            status = db_status;
            current_job_id = job_id;
            current_job_created_at = job_created;
            last_heartbeat = some now;
          })
          db.workers;
  },
)

-- `var currentJobCreatedAt *time.Time`, looked up only for a worker that reports a job.
unfoldable pub current_job_created_at : Option Uuid → Action (Option Instant)
current_job_created_at none = pure none
current_job_created_at (some jid) = statement (lookup_created_at jid)

unfoldable pub update_heartbeat : Instant → Uuid → ℕ → WorkerStatus → Option Uuid → Action Bool
update_heartbeat now wid e db_status job_id = do
  job_created ← current_job_created_at job_id
  statement (set_heartbeat now wid e db_status job_id job_created)

pub record StaleWorker : Type 0 where
  pub id : Uuid
  pub epoch : ℕ

-- last_heartbeat IS NOT NULL AND last_heartbeat < now() - ($1 * interval '1 second').
abbrev pub is_overdue : Instant → ℕ → Option Instant → Bool
is_overdue now timeout_seconds none = false
is_overdue now timeout_seconds (some t) = ltb (t + timeout_seconds * 1_000_000_000) now

abbrev pub is_stale : Instant → ℕ → Worker → Bool
is_stale now timeout_seconds w = is_live w.status && is_overdue now timeout_seconds w.last_heartbeat

abbrev pub to_stale : Worker → StaleWorker
to_stale w = record { id = w.id; epoch = w.epoch }

unfoldable pub list_stale : Instant → ℕ → Action (List StaleWorker)
list_stale now timeout_seconds =
    statement λ db. (ok (map to_stale (select (is_stale now timeout_seconds) db.workers)), db)

-- WHERE id = $1 AND epoch = $2 AND status NOT IN ('OFFLINE', 'DEAD').
abbrev pub reapable : Uuid → ℕ → Worker → Bool
reapable wid e w = with_epoch wid e w && is_live w.status

unfoldable pub mark_dead : Uuid → ℕ → Db → Result ℕ × Db
mark_dead wid e db = (
  ok (count (reapable wid e) db.workers),
  record db {
    workers =
        update (reapable wid e)
          (λ w. record w { status = dead; available_capacity = w.capacity_slots }) db.workers;
  },
)

-- WHERE worker_id = $1 AND status IN ('ASSIGNED', 'RUNNING').
abbrev pub held_by : Uuid → Job → Bool
held_by wid j = opt_eq j.worker_id wid && is_held j.status

unfoldable pub jobs_held_by : Uuid → Db → Result (List Job) × Db
jobs_held_by wid db = (ok (select (held_by wid) db.jobs), db)

abbrev pub requeued : Job → Job
requeued j = record j {
  status = queued;
  worker_id = none;
  assignment_epoch = none;
  started_at = none;
}

unfoldable pub requeue : Uuid → Instant → Db → Result (Unit {0}) × Db
requeue jid created db = (ok tt, record db { jobs = update (job_at jid created) requeued db.jobs })

-- The body of the loop over the dead worker's jobs.
unfoldable pub requeue_job : Instant → Uuid → Job → Action (Unit {0})
requeue_job now wid j = do
  statement (requeue j.id j.created_at)
  attempt_number ← statement (next_attempt j.id)
  statement (
      insert_history (record {
        job_id = j.id;
        job_created_at = j.created_at;
        attempt_number = attempt_number;
        worker_id = some wid;
        error_message = some "worker_dead";
        finished_at = now;
      }))

unfoldable pub requeue_all : Instant → Uuid → ℕ → Action (Unit {0})
requeue_all now wid e = do
  jobs ← statement (jobs_held_by wid)
  for_each jobs (requeue_job now wid)
  statement (insert_event wid (marked_dead e (length jobs)))

unfoldable pub mark_dead_and_requeue : Instant → Uuid → ℕ → Action (Unit {0})
mark_dead_and_requeue now wid e = begin_func do
  affected ← statement (mark_dead wid e)
  if affected == 0 then pure tt else requeue_all now wid e
