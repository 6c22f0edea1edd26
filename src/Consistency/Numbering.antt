-- ===== src/Consistency/Numbering.antt =====
-- The rows of job_retry_history are numbered per job: the two statements that MarkDeadAndRequeue and
-- RetryOrFail send, internal/store/postgres/workers.go and jobs.go.
use fleetforge.Base.{
  ℕ, ◌+◌, ◌<◌, ◌≡◌, refl, false, none, List, [], ◌∷◌, arith, All, query_row-none, query_row, count,
}
use fleetforge.Schema.{Uuid, RetryHistory, Db}
use fleetforge.Statements.{insert_history, next_attempt, same_attempt, of_job}
use fleetforge.World.{ok}
use fleetforge.Effects.Values.{ok_eq}
use fleetforge.Consistency.{IsNumbered, IsConsistent}

-- The number that is counted is not taken yet, so uq_retry_attempt never refuses the row.
numbers_below :
    (jid : Uuid) (n : ℕ) (hs : List RetryHistory)
    → IsNumbered hs
    → count (of_job jid) hs < n
    → query_row (same_attempt jid n) hs ≡ none
unfolding query_row count
numbers_below jid n [] h lt = refl
numbers_below jid n (x ∷ hs) h lt = ground (arith, numbers_below jid n hs h.1)

-- In a consistent database, inserting a history row under the number that the count just before
-- returned does not violate uq_retry_attempt and adds exactly this row; no former row of the job
-- has the number, and it is the number of rows of the job afterwards.
pub insert_history-next_attempt :
    (h : RetryHistory) (db : Db) (n : ℕ)
    → IsConsistent db
    → (next_attempt h.job_id db).0 ≡ ok n
    → (insert_history (record h { attempt_number = n }) (next_attempt h.job_id db).1
        ≡ (ok tt, record db { history = record h { attempt_number = n } ∷ db.history }))
      × All (λ x. same_attempt h.job_id n x ≡ false) db.history
      × (count (of_job h.job_id) (record h { attempt_number = n } ∷ db.history) ≡ n)
unfolding insert_history next_attempt count
insert_history-next_attempt h db n c counted =
    let is_n : count (of_job h.job_id) db.history + 1 ≡ n = ok_eq _ _ counted in
    let new = numbers_below h.job_id n db.history c.numbered (omega arith) in
    (rw new refl, query_row-none (same_attempt h.job_id n) db.history new, ground arith)
