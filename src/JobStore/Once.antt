-- ===== src/JobStore/Once.antt =====
-- An attempt is reported once, Complete and RetryOrFail of internal/store/postgres/jobs.go.
use fleetforge.Base.{
  ℕ, ◌≡◌, ◌≢◌, subst, sym, String, true, false, Option, none, arith, All, update_none, count_none,
  query_row_missing, All-after_update,
}
use fleetforge.Schema.{Uuid, Instant, JobStatus, is_held, Db}
use fleetforge.World.{World, ok, pure, statement, begin_func, finish, and_then, ◌>>=◌}
use fleetforge.JobStore.Create.{nullable}
use fleetforge.JobStore.Transitions.{
  reportable, finish_job, complete, lookup_retries, decide_and_log, retry_or_fail,
}

module _ (jid : Uuid) (created : Instant) (e : ℕ) where
  -- No row is left that a report under the epoch could change.
  abbrev pub NoneReportable : Db → Type 0
  NoneReportable db = All (λ j. reportable jid created e j ≡ false) db.jobs

  pub complete_refused :
      (now : Instant) (s : JobStatus) (log_ref : String) (w : World)
      → NoneReportable w.db
      → ((complete now jid created e s log_ref w).0 ≢ ok true)
        × ((complete now jid created e s log_ref w).1.db ≡ w.db)
  unfolding complete statement
  complete_refused now s log_ref w none_match = ground (
    arith,
    update_none (reportable jid created e) (finish_job now s (nullable log_ref)) w.db.jobs
        none_match,
    count_none (reportable jid created e) w.db.jobs none_match,
  )

  pub retry_or_fail_refused :
      (now : Instant) (wid : Option Uuid) (message log_ref : String) (w : World)
      → NoneReportable w.db
      → ((o : Option JobStatus)
          → (retry_or_fail now jid created e wid message log_ref w).0 ≡ ok o
          → o ≡ none)
        × ((retry_or_fail now jid created e wid message log_ref w).1.db ≡ w.db)
  unfolding retry_or_fail begin_func finish ◌>>=◌ and_then statement lookup_retries decide_and_log
      pure
  retry_or_fail_refused now wid message log_ref w none_match =
      let missing = query_row_missing (reportable jid created e) w.db.jobs none_match in
      (λ o h. ground (arith, missing), ground (arith, missing))

  none_left :
      (now : Instant) (s : JobStatus) (log_ref : String) (w : World)
      → is_held s ≡ false
      → (complete now jid created e s log_ref w).0 ≡ ok true
      → NoneReportable (complete now jid created e s log_ref w).1.db
  unfolding complete statement finish_job
  none_left now s log_ref w over done =
      let after =
        All-after_update (λ j. reportable jid created e j ≡ false) (reportable jid created e)
          (finish_job now s (nullable log_ref)) w.db.jobs (λ j hit. ground arith)
          (λ j miss. miss) in
      ground (arith, after)

-- In the database that a recorded completion with a final status left, a second completion and a
-- failure report under the same key and epoch are refused and change nothing.
pub complete-once :
    (now : Instant) (jid : Uuid) (created : Instant) (e : ℕ) (s : JobStatus) (log_ref : String)
    (w v : World)
    → is_held s ≡ false
    → (complete now jid created e s log_ref w).0 ≡ ok true
    → v.db ≡ (complete now jid created e s log_ref w).1.db
    → (later : Instant) (s' : JobStatus) (wid : Option Uuid) (message log_ref' : String)
    → (((complete later jid created e s' log_ref' v).0 ≢ ok true)
        × ((complete later jid created e s' log_ref' v).1.db ≡ v.db))
      × (((o : Option JobStatus)
            → (retry_or_fail later jid created e wid message log_ref' v).0 ≡ ok o
            → o ≡ none)
          × ((retry_or_fail later jid created e wid message log_ref' v).1.db ≡ v.db))
complete-once now jid created e s log_ref w v over done next later s' wid message log_ref' =
    let gone : NoneReportable jid created e v.db =
      subst (NoneReportable jid created e) (sym next)
        (none_left jid created e now s log_ref w over done) in
    (
      complete_refused jid created e later s' log_ref' v gone,
      retry_or_fail_refused jid created e later wid message log_ref' v gone,
    )
