-- ===== src/Consistency/Row/Retries.antt =====
-- The transaction that parks a failed job or gives it up: RetryOrFail, internal/store/postgres.
use fleetforge.Base.{
  ℕ, ◌≡◌, refl, sym, subst, true, false, Option, none, some, String, List, arith, query_row,
  Option-cases, Bool-cases, inl, inr, ◌⊎◌,
}
use fleetforge.Base.Int.{ℤ, leb_ℤ}
use fleetforge.Schema.{Uuid, Instant, Job, failed, retrying, is_held, Db}
use fleetforge.World.{ok, statement}
use fleetforge.Effects.{
  Leads, Keeps, Keeps-pure, Keeps-bind, Keeps-begin_func, Leads-bind, Leads-statement, Leads-seq,
  Leads-if, statement-eq-ok,
}
use fleetforge.Statements.{job_at}
use fleetforge.JobStore.Backoff.{next_retries, retry_backoff, add_duration}
use fleetforge.JobStore.Transitions.{
  reportable, set_job, park, lookup_retries, retry_decision, decide_and_log, retry_or_fail,
}
use fleetforge.Consistency.Statements.{SameKey}
use fleetforge.Consistency.Row.{
  IsStored, HasRow, HasRowIn, Allows, IsStored-update_apart, IsStored-update_hit, found_row,
  other_table-Keeps,
}
use fleetforge.Consistency.Row.Stores.{next_attempt-Keeps, insert_history-Keeps}
use fleetforge.Consistency.Row.Jobs.{finish_job-SameKey, park-SameKey}

module _ (P : Job → Type 0) (allowed : Allows P) (jid : Uuid) (created : Instant) where
  -- The row is the one that SELECT FOR UPDATE read, or has another key.
  record Found (retries most : ℤ) (js : List Job) : Type 0 where
    row : Job
    stored : IsStored row js
    holds : P row
    fits :
        (job_at jid created row ≡ false)
        ⊎ ((is_held row.status ≡ true) × (row.retries ≡ retries) × (row.max_retries ≡ most))

  abbrev FoundIn : Option (ℤ × ℤ) → Db → Type 0
  FoundIn none db = HasRowIn P db
  FoundIn (some (retries, most)) db = Found retries most db.jobs

  module _ (retries most : ℤ) where
    forget : (db : Db) → Found retries most db.jobs → HasRowIn P db
    forget db h = record { row = h.row; stored = h.stored; holds = h.holds }

    set_job-Leads :
        (change : Job → Job)
        → SameKey (job_at jid created) change
        → ((j : Job)
            → is_held j.status ≡ true
            → j.retries ≡ retries
            → j.max_retries ≡ most
            → P j
            → P (change j))
        → Leads
            (λ db. Found retries most db.jobs)
            (HasRowIn P)
            (statement (set_job jid created change))
    unfolding set_job
    set_job-Leads change same step = Leads-statement _ forget λ db h. elim h.fits [
      | inl other ↦ record {
        row = h.row;
        stored = IsStored-update_apart _ change same h.row db.jobs other h.stored;
        holds = h.holds;
      }
      | inr read ↦ elim (Bool-cases (job_at jid created h.row)) [
        | inl own ↦ record {
          row = change h.row;
          stored = IsStored-update_hit _ change same h.row db.jobs own h.stored;
          holds = step h.row read.0 read.1 read.2 h.holds;
        }
        | inr other ↦ record {
          row = h.row;
          stored = IsStored-update_apart _ change same h.row db.jobs other h.stored;
          holds = h.holds;
        }
      ]
    ]

    retry_decision-Leads :
        (now : Instant) (log_ref : Option String)
        → Leads
            (λ db. Found retries most db.jobs)
            (HasRowIn P)
            (retry_decision now jid created log_ref retries most)
    unfolding retry_decision
    retry_decision-Leads now log_ref =
        Leads-if (leb_ℤ (next_retries retries) most)
          (λ t.
            let at = add_duration now (retry_backoff (next_retries retries)) in
            Leads-seq
              (set_job-Leads _ (park-SameKey _ _ _) (λ j held same max h.
                subst (λ r. P (park (next_retries r) at j)) same
                  (allowed.parks at j held (rw (same, max) t) h)))
              (λ db h. h) (λ _. Keeps-pure retrying))
          (λ f.
            Leads-seq
              (set_job-Leads _ (finish_job-SameKey _ now failed log_ref)
                (λ j held same max h. allowed.exhausts now log_ref j held (rw (same, max) f) h))
              (λ db h. h) (λ _. Keeps-pure failed))

  lookup_retries-FoundIn :
      (e : ℕ) (db : Db) (o : Option (ℤ × ℤ))
      → HasRowIn P db
      → (lookup_retries jid created e db).0 ≡ ok o
      → FoundIn o db
  unfolding lookup_retries
  lookup_retries-FoundIn e db none h is_o = h
  lookup_retries-FoundIn e db (some (retries, most)) h is_o =
      elim (Option-cases (query_row (reportable jid created e) db.jobs)) [
        | inl gone ↦ absurd (ground arith)
        | inr (k, found) ↦ record {
          row = h.row;
          stored = h.stored;
          holds = h.holds;
          fits =
              elim (found_row h.row (reportable jid created e) jid created db.jobs
                (λ x hit. ground arith) h.stored found) [
                  | inl other ↦ inl other
                  | inr (same, hits) ↦ inr (
                      subst
                        (λ (x : Job).
                          (is_held x.status ≡ true)
                          × (x.retries ≡ retries)
                          × (x.max_retries ≡ most))
                        same (ground arith, ground arith, ground arith))
                ];
        }
      ]

  decide_and_log-Leads :
      (now : Instant) (wid : Option Uuid) (message log_ref : Option String) (o : Option (ℤ × ℤ))
      → Leads (FoundIn o) (HasRowIn P) (decide_and_log now jid created wid message log_ref o)
  unfolding decide_and_log
  decide_and_log-Leads now wid message log_ref none = Keeps-pure none
  decide_and_log-Leads now wid message log_ref (some (retries, most)) =
      Leads-seq (next_attempt-Keeps (Found retries most) jid) (forget retries most) λ n.
        Leads-seq (retry_decision-Leads retries most now log_ref) (λ db h. h)
          λ s. Keeps-bind (insert_history-Keeps (HasRow P) _) (λ _. Keeps-pure (some s))

  pub retry_or_fail-Keeps :
      (now : Instant) (e : ℕ) (wid : Option Uuid) (message log_ref : String)
      → Keeps (HasRowIn P) (retry_or_fail now jid created e wid message log_ref)
  unfolding retry_or_fail
  retry_or_fail-Keeps now e wid message log_ref = Keeps-begin_func (
      Leads-bind FoundIn (unfold lookup_retries in other_table-Keeps (HasRow P) _ (λ db. refl))
        (λ w o h is_o.
          let (same, left) = statement-eq-ok (lookup_retries jid created e) w is_o in
          subst (FoundIn o) (sym left)
            (unfold lookup_retries in lookup_retries-FoundIn e w.db o h same))
        (decide_and_log-Leads now wid _ _))
