-- ===== src/JobStore/Create.antt =====
-- Submitting and reading jobs, internal/store/postgres/jobs.go.
use fleetforge.Base.{
  ℕ, Bool, true, false, ◌&&◌, not, Option, none, some, String, List, [], ◌∷◌, ◌==◌, leb,
  if◌then◌else◌, str_eq, is_some, take, select, query_row, count, order_by, opt_eq,
}
use fleetforge.Base.Int.{ℤ, pos, leb_ℤ, pos_part}
use fleetforge.Schema.{Uuid, Instant, Job, JobStatus, queued, job_status_eq, Db}
use fleetforge.World.{
  Result, ok, err, call_failed, job_not_found, Action, pure, throw, attempt, statement, ◌>>=◌,
}
use fleetforge.Statements.{job_with_id, job_at}
use fleetforge.WorkerStore.Drain.{clamp_limit}

pub record CreateJobParams : Type 0 where
  pub priority : ℤ
  pub repository : String
  pub branch : String
  pub commit_sha : String
  pub labels : List (String × String)
  pub required_capabilities : List String
  pub max_retries : ℤ
  pub idempotency_key : String

-- `if p.MaxRetries <= 0 { p.MaxRetries = 3 }`.
unfoldable pub default_max_retries : ℤ → ℤ
default_max_retries n = if leb_ℤ n (pos 0) then pos 3 else n

-- A Go string that is written as NULL where it is empty.
abbrev pub nullable : String → Option String
nullable s = if str_eq s "" then none else some s

-- CHECK (priority BETWEEN 0 AND 9).
abbrev valid_priority : ℤ → Bool
valid_priority p = leb_ℤ (pos 0) p && leb_ℤ p (pos 9)

unfoldable pub new_job : Uuid → Instant → CreateJobParams → Job
new_job new_id now p = record {
  id = new_id;
  priority = pos_part p.priority;
  repository = p.repository;
  branch = p.branch;
  commit_sha = p.commit_sha;
  labels = p.labels;
  required_capabilities = p.required_capabilities;
  retries = pos 0;
  max_retries = default_max_retries p.max_retries;
  status = queued;
  worker_id = none;
  assignment_epoch = none;
  idempotency_key = nullable p.idempotency_key;
  retry_at = none;
  log_ref = none;
  created_at = now;
  started_at = none;
  finished_at = none;
}

abbrev pub has_key : String → Job → Bool
has_key key j = elim j.idempotency_key [ none ↦ false | some k ↦ str_eq k key ]

abbrev same_key_at : Option String → Instant → Job → Bool
same_key_at none now j = false
same_key_at (some key) now j = has_key key j && j.created_at == now

-- What the CHECK, the primary key (id, created_at) and the index uq_jobs_idempotency_key let in.
unfoldable pub insertable : Uuid → Instant → CreateJobParams → Db → Bool
insertable new_id now p db =
    valid_priority p.priority
    && not (is_some (query_row (job_at new_id now) db.jobs))
    && not (is_some (query_row (same_key_at (nullable p.idempotency_key) now) db.jobs))

-- INSERT INTO jobs … RETURNING.
unfoldable pub insert_job : Uuid → Instant → CreateJobParams → Db → Result Job × Db
insert_job new_id now p db =
    if insertable new_id now p db
    then (ok (new_job new_id now p), record db { jobs = new_job new_id now p ∷ db.jobs })
    else (err call_failed, db)

abbrev pub newest_first : Job → Job → Bool
newest_first i j = leb j.created_at i.created_at

abbrev pub first_job : List Job → Result Job
first_job [] = err job_not_found
first_job (j ∷ js) = ok j

-- WHERE idempotency_key = $1 ORDER BY created_at DESC LIMIT 1.
unfoldable pub get_by_idempotency_key : String → Action Job
get_by_idempotency_key key =
    statement λ db. (first_job (order_by newest_first (select (has_key key) db.jobs)), db)

-- What Create does with the lookup's outcome: the job, and whether it was there before.
unfoldable pub create_after_lookup :
    Uuid → Instant → CreateJobParams → Result Job → Action (Job × Bool)
create_after_lookup new_id now p (ok existing) = pure (existing, true)
create_after_lookup new_id now p (err job_not_found) = do
  j ← statement (insert_job new_id now p)
  pure (j, false)
create_after_lookup new_id now p (err e) = throw e

unfoldable pub create : Uuid → Instant → CreateJobParams → Action (Job × Bool)
create new_id now p =
    if str_eq p.idempotency_key "" then create_after_lookup new_id now p (err job_not_found) else do
      existing ← attempt (get_by_idempotency_key p.idempotency_key)
      create_after_lookup new_id now p existing

abbrev pub found_job : Option Job → Result Job
found_job none = err job_not_found
found_job (some j) = ok j

unfoldable pub get : Uuid → Action Job
get jid = statement λ db. (found_job (query_row (job_with_id jid) db.jobs), db)

pub record ListJobsFilter : Type 0 where
  pub status : Option JobStatus
  pub repository : String
  pub worker_id : Option Uuid
  pub limit : ℤ

-- The conditions that are supplied, joined by AND.
abbrev matches_filter : ListJobsFilter → Job → Bool
matches_filter f j =
    elim f.status [ none ↦ true | some s ↦ job_status_eq j.status s ]
    && (if str_eq f.repository "" then true else str_eq j.repository f.repository)
    && elim f.worker_id [ none ↦ true | some wid ↦ opt_eq j.worker_id wid ]

unfoldable pub list_jobs : ListJobsFilter → Action (List Job)
list_jobs f = statement λ db. (
  ok (take (clamp_limit f.limit) (order_by newest_first (select (matches_filter f) db.jobs))),
  db,
)

-- SELECT priority, COUNT(*) … WHERE status = 'QUEUED' GROUP BY priority.
unfoldable pub count_queued_by_priority : Action (ℕ → ℕ)
count_queued_by_priority =
    statement
      λ db. (ok (λ p. count (λ j. job_status_eq j.status queued && j.priority == p) db.jobs), db)
