-- ===== src/Consistency/Retries.antt =====
-- A failure's retry decision keeps the database consistent, whichever of its calls fail.
use fleetforge.Base.{
  subst, sym, ℕ, ◌+◌, ◌≡◌, refl, String, Bool, true, false, Option, none, some, List, [], ◌∷◌,
  arith, All, All-map, All-query_row, query_row_sound, Bool-cases, Option-cases, inl, inr,
  query_row, count,
}
use fleetforge.Base.Int.{ℤ, leb_ℤ, ◌≤ℤ◌}
use fleetforge.Schema.{Uuid, Instant, Job, failed, retrying, Db}
use fleetforge.Statements.{job_at, next_attempt, of_job}
use fleetforge.World.{World, ok, statement}
use fleetforge.Effects.{
  Keeps, Keeps-statement, Keeps-begin_func, Leads, Leads-bind, Leads-statement, Leads-if,
  Leads-pure, Leads-seq, statement-eq-ok,
}
use fleetforge.Consistency.{KeysDiffer, IsConsistent}
use fleetforge.Consistency.Statements.{
  IsConsistent-update_jobs, IsConsistent-update_rows, insert_history-IsConsistent,
}
use fleetforge.JobStore.Backoff.{next_retries}
use fleetforge.JobStore.Transitions.{
  reportable, finish_job, park, set_job, lookup_retries, retry_decision, decide_and_log,
  retry_or_fail,
}
use fleetforge.Consistency.Workers.{Counted}
use fleetforge.Consistency.Jobs.{finish_job-KeepsKey}

-- The budget that the decision is taken on is that of the rows that it updates.
abbrev BudgetIs : Uuid → Instant → Option (ℤ × ℤ) → Db → Type 0
BudgetIs jid created none db = IsConsistent db
BudgetIs jid created (some (retries, most)) db =
    IsConsistent db × All (λ j. job_at jid created j ≡ true → j.max_retries ≡ most) db.jobs

same_budget :
    (jid : Uuid) (created : Instant) (p : Job → Bool) (js : List Job) {j : Job}
    → ((k : Job) → p k ≡ true → job_at jid created k ≡ true)
    → KeysDiffer js
    → query_row p js ≡ some j
    → All (λ k. job_at jid created k ≡ true → k.max_retries ≡ j.max_retries) js
unfolding query_row
same_budget jid created p [] imp d h = tt
same_budget jid created p (x ∷ js) {j} imp d h = elim (Bool-cases (p x)) [
  | inl t ↦ (λ _. ground arith, All-map js (λ k apart at. absurd (ground (arith, imp x t))) d.0)
  | inr e ↦
      let found : query_row p js ≡ some j = ground arith in
      (
        λ at. absurd (
            ground (
              arith,
              imp j (query_row_sound p js found),
              All-query_row (λ k. job_at x.id x.created_at k ≡ false) p js d.0 found,
            )),
        same_budget jid created p js imp d.1 found,
      )
]

module _ (jid : Uuid) (created : Instant) where
  lookup_retries-BudgetIs :
      (e : ℕ) (db : Db)
      → IsConsistent db
      → (o : Option (ℤ × ℤ)) → (lookup_retries jid created e db).0 ≡ ok o
      → BudgetIs jid created o db
  unfolding lookup_retries
  lookup_retries-BudgetIs e db c o h =
      elim (Option-cases (query_row (reportable jid created e) db.jobs)) [
        | inl gone ↦
            let same : none ≡ o = ground arith in subst (λ o. BudgetIs jid created o db) same c
        | inr (j, found) ↦
            let same : some (j.retries, j.max_retries) ≡ o = ground arith in
            subst (λ o. BudgetIs jid created o db) same
              (
                c,
                same_budget jid created (reportable jid created e) db.jobs (λ k hit. ground arith)
                    c.keys_differ found,
              )
      ]

  -- Looked up, and counted.
  Ready : ℤ × ℤ → ℕ → Db → Type 0
  Ready b n db = BudgetIs jid created (some b) db × (n ≡ count (of_job jid) db.history + 1)

  park-Counted :
      (retries most : ℤ) (at : Instant) (n : ℕ) (next : ℤ) (db : Db)
      → next ≤ℤ most
      → Ready (retries, most) n db
      → Counted jid n (set_job jid created (park next at) db).1
  unfolding set_job park Ready
  park-Counted retries most at n next db fits r = (
    IsConsistent-update_rows (λ j. job_at jid created j ≡ true → j.max_retries ≡ most) db
        (record { same_id = λ j. refl; same_created_at = λ j. refl })
        (λ j hit h. (
          λ _. h.0 hit,
          record {
            held = λ e. cc;
            free = λ e. (refl, refl);
            parked = λ e. refl;
            budget = rw (h.0 hit) fits;
          },
        ))
        (λ j hit h. refl) r.0.1 r.0.0,
    r.1,
  )

  fail-Counted :
      (b : ℤ × ℤ) (n : ℕ) (now : Instant) (log_ref : Option String) (db : Db)
      → Ready b n db
      → Counted jid n (set_job jid created (finish_job now failed log_ref) db).1
  unfolding set_job Ready
  fail-Counted b n now log_ref db r =
      (IsConsistent-update_jobs db (finish_job-KeepsKey _ _ now failed log_ref refl) r.0.0, r.1)

  Ready-Counted : (b : ℤ × ℤ) (n : ℕ) (db : Db) → Ready b n db → Counted jid n db
  unfolding Ready
  Ready-Counted b n db r = (r.0.0, r.1)

  retry_decision-Counted :
      (now : Instant) (log_ref : Option String) (retries most : ℤ) (n : ℕ)
      → Leads
          (Ready (retries, most) n)
          (Counted jid n)
          (retry_decision now jid created log_ref retries most)
  unfolding retry_decision
  retry_decision-Counted now log_ref retries most n =
      Leads-if (leb_ℤ (next_retries retries) most)
        (λ fits.
          Leads-seq
            (Leads-statement _ (Ready-Counted (retries, most) n)
              (λ db r. park-Counted retries most _ n _ db (ground arith) r))
            (λ db h. h) (λ _. Leads-pure (λ db h. h) retrying))
        (λ _.
          Leads-seq
            (Leads-statement _ (Ready-Counted (retries, most) n)
              (λ db r. fail-Counted (retries, most) n now log_ref db r))
            (λ db h. h) (λ _. Leads-pure (λ db h. h) failed))

  next_attempt-Ready :
      (b : ℤ × ℤ) (w : World) (n : ℕ)
      → BudgetIs jid created (some b) w.db
      → (statement (next_attempt jid) w).0 ≡ ok n
      → Ready b n (statement (next_attempt jid) w).1.db
  unfolding next_attempt Ready
  next_attempt-Ready b w n h e =
      let (same, left) = statement-eq-ok (next_attempt jid) w e in rw left (h, ground arith)

  decide_and_log-IsConsistent :
      (now : Instant) (wid : Option Uuid) (message log_ref : Option String) (o : Option (ℤ × ℤ))
      → Leads
          (BudgetIs jid created o)
          IsConsistent
          (decide_and_log now jid created wid message log_ref o)
  unfolding decide_and_log
  decide_and_log-IsConsistent now wid message log_ref none = Leads-pure (λ db c. c) none
  decide_and_log-IsConsistent now wid message log_ref (some (retries, most)) =
      Leads-bind (Ready (retries, most))
        (unfold next_attempt in Leads-statement _ (λ db h. h.0) (λ db h. h.0))
        (next_attempt-Ready (retries, most))
        λ n.
          Leads-seq (retry_decision-Counted now log_ref retries most n) (λ db h. h.0)
            λ s.
              Leads-seq
                (Leads-statement _ (λ db h. h.0) (λ db h. insert_history-IsConsistent _ db h.1 h.0))
                (λ db h. h) (λ _. Leads-pure (λ db h. h) (some s))

pub retry_or_fail-IsConsistent :
    (now : Instant) (jid : Uuid) (created : Instant) (e : ℕ) (wid : Option Uuid)
    (message log_ref : String)
    → Keeps IsConsistent (retry_or_fail now jid created e wid message log_ref)
unfolding retry_or_fail
retry_or_fail-IsConsistent now jid created e wid message log_ref = Keeps-begin_func (
    Leads-bind (BudgetIs jid created) (unfold lookup_retries in Keeps-statement _ (λ db c. c))
      (λ w o c h.
        let (same, left) = statement-eq-ok (lookup_retries jid created e) w h in
        subst (BudgetIs jid created o) (sym left)
          (unfold lookup_retries in lookup_retries-BudgetIs jid created e w.db c o same))
      (decide_and_log-IsConsistent jid created now wid _ _))
