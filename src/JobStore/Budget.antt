-- ===== src/JobStore/Budget.antt =====
-- What RetryOrFail decides and writes, internal/store/postgres/jobs.go.
use fleetforge.Base.{
  ℕ, ◌+◌, ◌≡◌, refl, sym, ◌∙◌, ap, subst, String, Option, none, some, ◌∷◌, if◌then◌else◌, query_row,
  update, count, is_some, Bool-cases, inl, inr,
}
use fleetforge.Base.Int.{ℤ, leb_ℤ}
use fleetforge.Schema.{Uuid, Instant, Job, JobStatus, RetryHistory, failed, retrying, Db}
use fleetforge.World.{World, ok, pure, statement, ◌>>=◌}
use fleetforge.Statements.{job_at, of_job, same_attempt, next_attempt, insert_history}
use fleetforge.Effects.Values.{ok_eq}
use fleetforge.Effects.Steps.{bind_ran, next_ran, begin_func_ran}
use fleetforge.JobStore.Create.{nullable}
use fleetforge.JobStore.Backoff.{next_retries, retry_backoff, add_duration}
use fleetforge.JobStore.Transitions.{
  reportable, finish_job, park, set_job, lookup_retries, retry_decision, decide_and_log,
  retry_or_fail,
}

inserted :
    (h : RetryHistory) (db : Db)
    → (insert_history h db).0 ≡ ok tt
    → (insert_history h db).1 ≡ record db { history = h ∷ db.history }
unfolding insert_history
inserted h db went =
    elim (Bool-cases (is_some (query_row (same_attempt h.job_id h.attempt_number) db.history))) [
      | inl t ↦ absurd (cc (rw t at went))
      | inr n ↦ rw n refl
    ]

module _ (now : Instant) (jid : Uuid) (created : Instant) where
  -- The new status, by the budget of the row: retries + 1 ≤ max_retries.
  abbrev pub decided_status : ℤ → ℤ → JobStatus
  decided_status retries max_retries =
      if leb_ℤ (next_retries retries) max_retries then retrying else failed

  -- The row afterwards: parked until the backoff is over, or finished.
  abbrev pub decided_row : Option String → ℤ → ℤ → Job → Job
  decided_row log_ref retries max_retries =
      let next = next_retries retries in
      if leb_ℤ next max_retries
      then park next (add_duration now (retry_backoff next))
      else finish_job now failed log_ref

  set_job_ran :
      (change : Job → Job) (s : JobStatus) (w : World) (r : JobStatus)
      → ((statement (set_job jid created change) >>= λ _. pure s) w).0 ≡ ok r
      → (r ≡ s)
        × (((statement (set_job jid created change) >>= λ _. pure s) w).1.db
            ≡ record w.db { jobs = update (job_at jid created) change w.db.jobs })
  unfolding pure set_job
  set_job_ran change s w r h =
      let (_, v, _, db, last, after) = next_ran (set_job jid created change) (λ _. pure s) w r h in
      (cc, after ∙ db)

  decision_ran :
      (log_ref : Option String) (retries max_retries : ℤ) (w : World) (s : JobStatus)
      → (retry_decision now jid created log_ref retries max_retries w).0 ≡ ok s
      → (s ≡ decided_status retries max_retries)
        × ((retry_decision now jid created log_ref retries max_retries w).1.db ≡ record w.db {
          jobs = update (job_at jid created) (decided_row log_ref retries max_retries) w.db.jobs;
        })
  unfolding retry_decision
  decision_ran log_ref retries max_retries w s h =
      let next = next_retries retries in
      elim (Bool-cases (leb_ℤ next max_retries)) [
        | inl t ↦ rw t (
            set_job_ran (park next (add_duration now (retry_backoff next))) retrying w s
              (rw t at h))
        | inr n ↦ rw n (set_job_ran (finish_job now failed log_ref) failed w s (rw n at h))
      ]

  logged :
      (row : RetryHistory) (new s : JobStatus) (w : World)
      → ((statement (insert_history row) >>= λ _. pure (some new)) w).0 ≡ ok (some s)
      → (s ≡ new)
        × (((statement (insert_history row) >>= λ _. pure (some new)) w).1.db
            ≡ record w.db { history = row ∷ w.db.history })
  unfolding pure
  logged row new s w h =
      let (a, v, went, db, last, after) =
        next_ran (insert_history row) (λ _. pure (some new)) w (some s) h in
      (cc, after ∙ db ∙ inserted row w.db went)

  decided_and_logged :
      (row : RetryHistory) (log_ref : Option String) (retries max_retries : ℤ) (w : World)
      (s : JobStatus)
      → ((retry_decision now jid created log_ref retries max_retries >>= λ new.
            statement (insert_history row) >>= λ _. pure (some new))
          w).0
        ≡ ok (some s)
      → (s ≡ decided_status retries max_retries)
        × (((retry_decision now jid created log_ref retries max_retries >>= λ new.
                statement (insert_history row) >>= λ _. pure (some new))
              w).1.db
            ≡ record w.db {
              jobs =
                  update (job_at jid created) (decided_row log_ref retries max_retries) w.db.jobs;
              history = row ∷ w.db.history;
            })
  decided_and_logged row log_ref retries max_retries w s h =
      let (new, made, rest, after) =
        bind_ran (retry_decision now jid created log_ref retries max_retries)
          (λ new. statement (insert_history row) >>= λ _. pure (some new)) w (some s) h in
      let (status, changed) = decision_ran log_ref retries max_retries w new made in
      let v : World = (retry_decision now jid created log_ref retries max_retries w).1 in
      let (same, last) = logged row new s v rest in
      (
        same ∙ status,
        ap (λ (u : World). u.db) after
            ∙ last
            ∙ ap (λ (db : Db). record db { history = row ∷ db.history }) changed,
      )

  module _ (e : ℕ) (wid : Option Uuid) (message log_ref : String) where
    abbrev pub failure_row : ℕ → RetryHistory
    failure_row n = record {
      job_id = jid;
      job_created_at = created;
      attempt_number = n;
      worker_id = wid;
      error_message = nullable message;
      finished_at = now;
    }

    -- The database with the decision and the row of the attempt.
    abbrev pub decided : ℤ → ℤ → ℕ → Db → Db
    decided retries max_retries n db = record db {
      jobs =
          update (job_at jid created) (decided_row (nullable log_ref) retries max_retries) db.jobs;
      history = failure_row n ∷ db.history;
    }

    decide_and_log_ran :
        (retries max_retries : ℤ) (w : World) (s : JobStatus)
        → (decide_and_log now jid created wid
            (nullable message)
            (nullable log_ref)
            (some (retries, max_retries))
            w).0
          ≡ ok (some s)
        → (s ≡ decided_status retries max_retries)
          × ((decide_and_log now jid created wid
                (nullable message)
                (nullable log_ref)
                (some (retries, max_retries))
                w).1.db
              ≡ decided retries max_retries (count (of_job jid) w.db.history + 1) w.db)
    unfolding decide_and_log next_attempt
    decide_and_log_ran retries max_retries w s h =
        let (n, v, counted, same, rest, after) = next_ran (next_attempt jid) _ w (some s) h in
        let (status, db) = decided_and_logged _ (nullable log_ref) retries max_retries v s rest in
        (
          status,
          after
              ∙ db
              ∙ ap (decided retries max_retries n) same
              ∙ ap (λ m. decided retries max_retries m w.db) (sym (ok_eq _ _ counted)),
        )

    attempt_decided :
        (budget : Option (ℤ × ℤ)) (w : World) (s : JobStatus)
        → (decide_and_log now jid created wid (nullable message) (nullable log_ref) budget w).0
          ≡ ok (some s)
        → (b : ℤ × ℤ) × (budget ≡ some b)
          × (s ≡ decided_status b.0 b.1)
          × ((decide_and_log now jid created wid
                (nullable message)
                (nullable log_ref)
                budget
                w).1.db
              ≡ decided b.0 b.1 (count (of_job jid) w.db.history + 1) w.db)
    unfolding decide_and_log pure
    attempt_decided none w s h = absurd (cc)
    attempt_decided (some (retries, max_retries)) w s h =
        let (status, written) = decide_and_log_ran retries max_retries w s h in
        ((retries, max_retries), refl, status, written)

    -- The columns that the transaction reads, of the row that it reads them from.
    abbrev budget_of : Option Job → Option (ℤ × ℤ)
    budget_of row = elim row [ none ↦ none | some j ↦ some (j.retries, j.max_retries) ]

    budget_row :
        (row : Option Job) (b : ℤ × ℤ)
        → budget_of row ≡ some b
        → (j : Job) × (row ≡ some j) × ((j.retries, j.max_retries) ≡ b)
    budget_row none b h = absurd (cc)
    budget_row (some j) b h = (j, refl, cc)

    -- One decision, by the budget of the row that was read, and one more row of the history.
    abbrev pub IsDecided : JobStatus → Db → Db → Type 0
    IsDecided s before after =
        (j : Job) × (query_row (reportable jid created e) before.jobs ≡ some j)
        × (s ≡ decided_status j.retries j.max_retries)
        × (after ≡ decided j.retries j.max_retries (count (of_job jid) before.history + 1) before)

    -- If RetryOrFail answers with a new status, the first row under the key that is held under the
    -- epoch was read; the status is RETRYING if retries + 1 is at most its max_retries and FAILED
    -- otherwise; the rows under the key are parked with retries + 1 until the backoff is over, or
    -- finished, and exactly one row, numbered COUNT(*) + 1, is added to the history; nothing else
    -- changes.
    pub retry_or_fail-IsDecided :
        (w : World) (s : JobStatus)
        → (retry_or_fail now jid created e wid message log_ref w).0 ≡ ok (some s)
        → IsDecided s w.db (retry_or_fail now jid created e wid message log_ref w).1.db
    unfolding retry_or_fail lookup_retries
    retry_or_fail-IsDecided w s h =
        let (v, begun, body, committed) = begin_func_ran _ w (some s) h in
        let (budget, u, found, same, rest, after) =
          next_ran (lookup_retries jid created e) _ v (some s) body in
        let (b, read, status, written) = attempt_decided budget u s rest in
        let unchanged : u.db ≡ w.db = same ∙ begun in
        let (j, row, columns) =
          budget_row (query_row (reportable jid created e) v.db.jobs) b (ok_eq _ _ found ∙ read) in
        (
          j,
          subst (λ (db : Db). query_row (reportable jid created e) db.jobs ≡ some j) begun row,
          status ∙ ap (λ (c : ℤ × ℤ). decided_status c.0 c.1) (sym columns),
          committed
              ∙ after
              ∙ written
              ∙ ap (λ (c : ℤ × ℤ). decided c.0 c.1 (count (of_job jid) u.db.history + 1) u.db)
                  (sym columns)
              ∙ ap
                  (λ (db : Db).
                    decided j.retries j.max_retries (count (of_job jid) db.history + 1) db)
                  unchanged,
        )
