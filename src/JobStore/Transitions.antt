-- ===== src/JobStore/Transitions.antt =====
-- The status transitions of a job, internal/store/postgres/jobs.go.
use fleetforge.Base.{
  ℕ, Bool, ◌&&◌, Option, none, some, String, List, ◌==◌, leb, if◌then◌else◌, opt_eq, take, select,
  query_row, update, count, order_by,
}
use fleetforge.Base.Int.{ℤ, leb_ℤ}
use fleetforge.Schema.{
  Uuid, Instant, Job, JobStatus, queued, assigned, running, failed, retrying, job_status_eq,
  is_held, Db,
}
use fleetforge.World.{Result, ok, Action, pure, statement, begin_func, ◌>>=◌, ◌>>◌}
use fleetforge.Statements.{job_at, next_attempt, insert_history}
use fleetforge.WorkerStore.Drain.{clamp_limit}
use fleetforge.JobStore.Create.{nullable}
use fleetforge.JobStore.Backoff.{next_retries, retry_backoff, add_duration}

-- WHERE id = $1 AND assignment_epoch = $2 AND status = 'ASSIGNED'.
abbrev pub starts : Uuid → ℕ → Job → Bool
starts jid e j = j.id == jid && opt_eq j.assignment_epoch e && job_status_eq j.status assigned

unfoldable pub mark_running : Instant → Uuid → ℕ → Action Bool
mark_running now jid e = statement λ db. (
  ok (count (starts jid e) db.jobs == 1),
  record db {
    jobs =
        update (starts jid e) (λ j. record j { status = running; started_at = some now }) db.jobs;
  },
)

-- WHERE id = … AND created_at = … AND assignment_epoch = … AND status IN ('ASSIGNED', 'RUNNING').
abbrev pub reportable : Uuid → Instant → ℕ → Job → Bool
reportable jid created e j = job_at jid created j && opt_eq j.assignment_epoch e && is_held j.status

unfoldable pub finish_job : Instant → JobStatus → Option String → Job → Job
finish_job now status log_ref j = record j {
  status = status;
  finished_at = some now;
  log_ref = log_ref;
}

unfoldable pub complete : Instant → Uuid → Instant → ℕ → JobStatus → String → Action Bool
complete now jid created e final_status log_ref = statement λ db. (
  ok (count (reportable jid created e) db.jobs == 1),
  record db {
    jobs =
        update (reportable jid created e) (finish_job now final_status (nullable log_ref)) db.jobs;
  },
)

unfoldable pub park : ℤ → Instant → Job → Job
park retries at j = record j {
  status = retrying;
  retries = retries;
  retry_at = some at;
  worker_id = none;
  assignment_epoch = none;
  started_at = none;
}

-- UPDATE jobs SET … WHERE id = … AND created_at = ….
unfoldable pub set_job : Uuid → Instant → (Job → Job) → Db → Result (Unit {0}) × Db
set_job jid created change db =
    (ok tt, record db { jobs = update (job_at jid created) change db.jobs })

-- SELECT retries, max_retries … FOR UPDATE; `none` is pgx.ErrNoRows.
unfoldable pub lookup_retries : Uuid → Instant → ℕ → Db → Result (Option (ℤ × ℤ)) × Db
lookup_retries jid created e db = (
  ok (elim (query_row (reportable jid created e) db.jobs) [
    | none ↦ none
    | some j ↦ some (j.retries, j.max_retries)
  ]),
  db,
)

-- The decision: another attempt while the budget lasts, FAILED after that.
unfoldable pub retry_decision : Instant → Uuid → Instant → Option String → ℤ → ℤ → Action JobStatus
retry_decision now jid created log_ref retries max_retries =
    let next = next_retries retries in
    if leb_ℤ next max_retries
    then (do
      statement (set_job jid created (park next (add_duration now (retry_backoff next))))
      pure retrying)
    else do statement (set_job jid created (finish_job now failed log_ref)); pure failed

unfoldable pub decide_and_log :
    Instant
    → Uuid
    → Instant
    → Option Uuid
    → Option String
    → Option String
    → Option (ℤ × ℤ)
    → Action (Option JobStatus)
decide_and_log now jid created worker_id error_message log_ref none = pure none
decide_and_log now jid created worker_id error_message log_ref (some (retries, max_retries)) = do
  attempt_number ← statement (next_attempt jid)
  new_status ← retry_decision now jid created log_ref retries max_retries
  statement (
      insert_history (record {
        job_id = jid;
        job_created_at = created;
        attempt_number = attempt_number;
        worker_id = worker_id;
        error_message = error_message;
        finished_at = now;
      }))
  pure (some new_status)

-- The new status, or `none` for a report that is discarded.
unfoldable pub retry_or_fail :
    Instant → Uuid → Instant → ℕ → Option Uuid → String → String → Action (Option JobStatus)
retry_or_fail now jid created e worker_id error_message log_ref = begin_func do
  budget ← statement (lookup_retries jid created e)
  decide_and_log now jid created worker_id (nullable error_message) (nullable log_ref) budget

abbrev pub due_by : Instant → Job → Bool
due_by now j =
    job_status_eq j.status retrying && elim j.retry_at [ none ↦ Bool.false | some t ↦ leb t now ]

abbrev retries_before : Job → Job → Bool
retries_before i j = elim i.retry_at [
  | none ↦ Bool.false
  | some s ↦ elim j.retry_at [ none ↦ Bool.true | some t ↦ leb s t ]
]

-- WHERE status = 'RETRYING' AND retry_at <= now() ORDER BY retry_at LIMIT $1.
unfoldable pub list_due_retries : Instant → ℤ → Action (List Job)
list_due_retries now limit = statement λ db.
    (ok (take (clamp_limit limit) (order_by retries_before (select (due_by now) db.jobs))), db)

abbrev pub is_parked_at : Uuid → Instant → Job → Bool
is_parked_at jid created j = job_at jid created j && job_status_eq j.status retrying

unfoldable pub mark_queued_from_retry : Uuid → Instant → Action Bool
mark_queued_from_retry jid created = statement λ db. (
  ok (count (is_parked_at jid created) db.jobs == 1),
  record db {
    jobs =
        update (is_parked_at jid created) (λ j. record j { status = queued; retry_at = none })
          db.jobs;
  },
)
