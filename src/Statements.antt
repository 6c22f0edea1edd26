-- ===== src/Statements.antt =====
-- The WHERE clauses and the INSERT statements that several operations of
-- internal/store/postgres/workers.go and jobs.go share.
use fleetforge.Base.{
  ℕ, ◌+◌, String, Bool, ◌&&◌, ◌∷◌, ◌==◌, if◌then◌else◌, str_eq, is_some, query_row, count,
}
use fleetforge.Schema.{Uuid, Instant, Worker, Job, RetryHistory, EventType, Db}
use fleetforge.World.{Result, ok, err, call_failed}

abbrev pub has_instance : String → Worker → Bool
has_instance instance w = str_eq w.instance_id instance

abbrev pub has_id : Uuid → Worker → Bool
has_id wid w = w.id == wid

abbrev pub with_epoch : Uuid → ℕ → Worker → Bool
with_epoch wid e w = w.id == wid && w.epoch == e

abbrev pub job_with_id : Uuid → Job → Bool
job_with_id jid j = j.id == jid

-- WHERE id = $1 AND created_at = $2.
abbrev pub job_at : Uuid → Instant → Job → Bool
job_at jid created j = j.id == jid && j.created_at == created

-- INSERT INTO worker_events.
unfoldable pub insert_event : Uuid → EventType → Db → Result (Unit {0}) × Db
insert_event wid event db =
    (ok tt, record db { events = record { worker_id = wid; event_type = event } ∷ db.events })

abbrev pub of_job : Uuid → RetryHistory → Bool
of_job jid h = h.job_id == jid

-- SELECT COUNT(*) + 1 FROM job_retry_history WHERE job_id = $1.
unfoldable pub next_attempt : Uuid → Db → Result ℕ × Db
next_attempt jid db = (ok (count (of_job jid) db.history + 1), db)

abbrev pub same_attempt : Uuid → ℕ → RetryHistory → Bool
same_attempt jid n h = h.job_id == jid && h.attempt_number == n

-- INSERT INTO job_retry_history, under the constraint uq_retry_attempt (job_id, attempt_number).
unfoldable pub insert_history : RetryHistory → Db → Result (Unit {0}) × Db
insert_history h db =
    if is_some (query_row (same_attempt h.job_id h.attempt_number) db.history)
    then (err call_failed, db)
    else (ok tt, record db { history = h ∷ db.history })
