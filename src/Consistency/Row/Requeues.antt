-- ===== src/Consistency/Row/Requeues.antt =====
-- The transactions that put jobs back or park them: MarkDeadAndRequeue and RetryOrFail,
-- internal/store/postgres.
use fleetforge.Base.{
  ℕ, ◌≡◌, refl, sym, subst, Bool, true, false, ◌==◌, List, [], ◌∷◌, arith, All, select, Bool-cases,
  inl, inr, ◌⊎◌,
}
use fleetforge.Schema.{Uuid, Instant, Job, is_held, Db}
use fleetforge.World.{World, for_each, ok, statement}
use fleetforge.Effects.{
  Leads, Keeps, Keeps-pure, Keeps-bind, Keeps-if, Keeps-begin_func, Leads-bind, Leads-statement,
  Leads-seq, Leads-pure, statement-eq-ok,
}
use fleetforge.Statements.{job_at}
use fleetforge.WorkerStore.Liveness.{
  mark_dead, held_by, jobs_held_by, requeued, requeue, requeue_job, requeue_all,
  mark_dead_and_requeue,
}
use fleetforge.Consistency.Statements.{SameKey}
use fleetforge.Consistency.Row.{
  IsStored, HasRow, HasRowIn, Allows, IsStored-update_apart, IsStored-update_hit, select-apart,
  other_table-Keeps,
}
use fleetforge.Consistency.Row.Stores.{insert_event-Keeps, next_attempt-Keeps, insert_history-Keeps}

requeued-SameKey : (p : Job → Bool) → SameKey p requeued
requeued-SameKey p = record { same_id = λ j. refl; same_created_at = λ j. refl }

module _ (P : Job → Type 0) (allowed : Allows P) where
  -- While the jobs of a dead worker are put back: the row is not among them, or may still go back,
  -- or is back.
  record Requeuing (ks js : List Job) : Type 0 where
    row : Job
    stored : IsStored row js
    holds : P row
    fits :
        All (λ k. job_at k.id k.created_at row ≡ false) ks
        ⊎ ((is_held row.status ≡ true) ⊎ (requeued row ≡ row))

  abbrev RequeuingIn : List Job → Db → Type 0
  RequeuingIn ks db = Requeuing ks db.jobs

  forget : (ks : List Job) (db : Db) → RequeuingIn ks db → HasRowIn P db
  forget ks db h = record { row = h.row; stored = h.stored; holds = h.holds }

  forget_head : (k : Job) (ks : List Job) (db : Db) → RequeuingIn (k ∷ ks) db → RequeuingIn ks db
  forget_head k ks db h = record {
    row = h.row;
    stored = h.stored;
    holds = h.holds;
    fits = elim h.fits [ inl other ↦ inl other.1 | inr back ↦ inr back ];
  }

  requeued_row :
      (row : Job) → P row → (is_held row.status ≡ true) ⊎ (requeued row ≡ row) → P (requeued row)
  requeued_row row h (inl held) = allowed.requeues row held h
  requeued_row row h (inr back) = subst P (sym back) h

  put_back :
      (k : Job) (ks : List Job) (db : Db)
      → RequeuingIn (k ∷ ks) db
      → RequeuingIn ks (requeue k.id k.created_at db).1
  unfolding requeue forget_head
  put_back k ks db h = elim (Bool-cases (job_at k.id k.created_at h.row)) [
    | inr other ↦ record {
      row = h.row;
      stored =
          IsStored-update_apart (job_at k.id k.created_at) requeued (requeued-SameKey _) h.row
            db.jobs other h.stored;
      holds = h.holds;
      fits = (forget_head k ks db h).fits;
    }
    | inl own ↦ record {
      row = requeued h.row;
      stored =
          IsStored-update_hit (job_at k.id k.created_at) requeued (requeued-SameKey _) h.row db.jobs
            own h.stored;
      holds = elim h.fits [ inl other ↦ absurd (cc) | inr back ↦ requeued_row h.row h.holds back ];
      fits = inr (inr refl);
    }
  ]

  requeue_job-Leads :
      (now : Instant) (wid : Uuid) (k : Job) (ks : List Job)
      → Leads (RequeuingIn (k ∷ ks)) (RequeuingIn ks) (requeue_job now wid k)
  unfolding requeue_job
  requeue_job-Leads now wid k ks =
      Leads-seq (Leads-statement _ (forget_head k ks) (put_back k ks)) (λ db h. h)
        λ _.
          Keeps-bind (next_attempt-Keeps (Requeuing ks) k.id)
            (λ n. insert_history-Keeps (Requeuing ks) _)

  requeue_each-Leads :
      (now : Instant) (wid : Uuid) (ks : List Job)
      → Leads (RequeuingIn ks) (HasRowIn P) (for_each ks (requeue_job now wid))
  unfolding for_each
  requeue_each-Leads now wid [] = Leads-pure (forget []) tt
  requeue_each-Leads now wid (k ∷ ks) =
      Leads-seq (requeue_job-Leads now wid k ks) (forget ks) (λ _. requeue_each-Leads now wid ks)

  -- What the SELECT of the held jobs returned.
  selected-Requeuing :
      (wid : Uuid) (js : List Job) → HasRow P js → Requeuing (select (held_by wid) js) js
  selected-Requeuing wid js h = record {
    row = h.row;
    stored = h.stored;
    holds = h.holds;
    fits = elim (Bool-cases (is_held h.row.status)) [
      | inl held ↦ inr (inl held)
      | inr free ↦ inl (select-apart h.row (held_by wid) js (ground arith) h.stored.only)
    ];
  }

  jobs_held_by-Requeuing :
      (wid : Uuid) (w : World) (ks : List Job)
      → HasRowIn P w.db
      → (statement (jobs_held_by wid) w).0 ≡ ok ks
      → RequeuingIn ks (statement (jobs_held_by wid) w).1.db
  unfolding jobs_held_by
  jobs_held_by-Requeuing wid w ks h is_ks =
      let (same, left) = statement-eq-ok (jobs_held_by wid) w is_ks in
      let selected : select (held_by wid) w.db.jobs ≡ ks = ground arith in
      subst (RequeuingIn ks) (sym left)
        (subst (λ xs. Requeuing xs w.db.jobs) selected (selected-Requeuing wid w.db.jobs h))

  requeue_all-Keeps :
      (now : Instant) (wid : Uuid) (e : ℕ) → Keeps (HasRowIn P) (requeue_all now wid e)
  unfolding requeue_all
  requeue_all-Keeps now wid e =
      Leads-bind RequeuingIn (unfold jobs_held_by in other_table-Keeps (HasRow P) _ (λ db. refl))
        (λ w ks h is_ks. jobs_held_by-Requeuing wid w ks h is_ks)
        (λ ks.
          Leads-seq (requeue_each-Leads now wid ks) (λ db h. h)
            (λ _. insert_event-Keeps (HasRow P) _ _))

  pub mark_dead_and_requeue-Keeps :
      (now : Instant) (wid : Uuid) (e : ℕ) → Keeps (HasRowIn P) (mark_dead_and_requeue now wid e)
  unfolding mark_dead_and_requeue
  mark_dead_and_requeue-Keeps now wid e = Keeps-begin_func (
      Keeps-bind (unfold mark_dead in other_table-Keeps (HasRow P) _ (λ db. refl))
        λ n. Keeps-if (n == 0) (λ _. Keeps-pure tt) (λ _. requeue_all-Keeps now wid e))
