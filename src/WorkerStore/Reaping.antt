-- ===== src/WorkerStore/Reaping.antt =====
-- What MarkDeadAndRequeue leaves behind, internal/store/postgres/workers.go.
use fleetforge.Base.{
  ℕ, ◌≡◌, ◌≢◌, refl, sym, ap, subst, ◌∙◌, Bool, true, false, ◌||◌, ◌==◌, List, [], ◌∷◌, arith, All,
  All-map, All-after_update, select, update, count, Bool-cases, inl, inr, ==_iff, if◌then◌else◌,
}
use fleetforge.Schema.{Uuid, Instant, Job, Db, RetryHistory, dead}
use fleetforge.Statements.{job_at, next_attempt, insert_history, insert_event}
use fleetforge.World.{World, Result, ok, err, Error, Action, pure, statement, for_each, ◌>>=◌}
use fleetforge.Effects.{
  Leads, LeadsOk, Leads-statement, statement-eq-ok, >>=-eq-ok, begun, begin_func-eq-ok,
  begin_func-eq-err,
}
use fleetforge.WorkerStore.Liveness.{
  reapable, mark_dead, held_by, jobs_held_by, requeued, requeue, requeue_job, requeue_all,
  mark_dead_and_requeue,
}

-- The job has the key of one of the list.
abbrev any_at : List Job → Job → Bool
any_at [] j = false
any_at (k ∷ ks) j = job_at k.id k.created_at j || any_at ks j

module _ {P Q : Db → Type 0} {A : Type 0} where
  LeadsOk-Leads : {m : Action A} → Leads P Q m → LeadsOk P Q m
  LeadsOk-Leads lm = record { holds = λ w a h e. lm.holds w h }

  LeadsOk-pure : (a : A) → ((db : Db) → P db → Q db) → LeadsOk P Q (pure a)
  unfolding pure
  LeadsOk-pure a imp = record { holds = λ w b h e. imp w.db h }

  LeadsOk-bind :
      {B : Type 0} (m : Action B) (f : B → Action A) (Mid : B → Db → Type 0)
      → ((w : World) (b : B) → P w.db → (m w).0 ≡ ok b → Mid b (m w).1.db)
      → ((b : B) → LeadsOk (Mid b) Q (f b))
      → LeadsOk P Q (m >>= f)
  LeadsOk-bind m f Mid first next = record {
    holds = λ w a h done.
        let (b, ran, same) = >>=-eq-ok m f w done in
        subst (λ (r : Result A × World). Q r.1.db) (sym same)
          ((next b).holds (m w).1 a (first w b h ran)
            (sym (ap (λ (r : Result A × World). r.0) same) ∙ done));
  }

module _ (now : Instant) (wid : Uuid) (e : ℕ) where
  -- No row of the worker under the epoch is live, and every job that the worker still holds is in
  -- the list.
  Remaining : List Job → Db → Type 0
  Remaining js db =
      All (λ w. reapable wid e w ≡ false) db.workers
      × All (λ j. held_by wid j ≡ true → any_at js j ≡ true) db.jobs

  requeued_rest :
      (k : Job) (ks js : List Job)
      → All (λ j. held_by wid j ≡ true → any_at (k ∷ ks) j ≡ true) js
      → All
          (λ j. held_by wid j ≡ true → any_at ks j ≡ true)
          (update (job_at k.id k.created_at) requeued js)
  unfolding update
  requeued_rest k ks [] h = tt
  requeued_rest k ks (x ∷ xs) h = elim (Bool-cases (job_at k.id k.created_at x)) [
    | inl t ↦ rw t ((λ still. absurd (ground arith)), requeued_rest k ks xs h.1)
    | inr f ↦ rw f ((λ still. ground (arith, h.0 still)), requeued_rest k ks xs h.1)
  ]

  All-selected :
      (js : List Job)
      → All (λ j. held_by wid j ≡ true → any_at (select (held_by wid) js) j ≡ true) js
  unfolding select
  All-selected [] = tt
  All-selected (x ∷ xs) = elim (Bool-cases (held_by wid x)) [
    | inl t ↦
        let itself : (x.id == x.id) ≡ true = (==_iff x.id x.id).1 refl in
        let same_time : (x.created_at == x.created_at) ≡ true =
          (==_iff x.created_at x.created_at).1 refl in
        rw t (
          (λ held. ground arith),
          All-map xs (λ j listed held. ground (arith, listed held)) (All-selected xs),
        )
    | inr f ↦ (
      λ held. absurd (ground arith),
      All-map xs (λ j listed held. ground (arith, listed held)) (All-selected xs),
    )
  ]

  requeues_first :
      (k : Job) (ks : List Job) (w : World) (a : Unit {0})
      → Remaining (k ∷ ks) w.db
      → (statement (requeue k.id k.created_at) w).0 ≡ ok a
      → Remaining ks (statement (requeue k.id k.created_at) w).1.db
  unfolding Remaining requeue
  requeues_first k ks w a (gone, listed) done =
      let (ran, left) = statement-eq-ok (requeue k.id k.created_at) w done in
      subst (Remaining ks) (sym left) (gone, requeued_rest k ks w.db.jobs listed)

  next_attempt_keeps :
      (jid : Uuid) (ks : List Job)
      → Leads (Remaining ks) (Remaining ks) (statement (next_attempt jid))
  unfolding next_attempt
  next_attempt_keeps jid ks = Leads-statement (next_attempt jid) (λ db h. h) (λ db h. h)

  insert_history_keeps :
      (h : RetryHistory) (ks : List Job)
      → Leads (Remaining ks) (Remaining ks) (statement (insert_history h))
  unfolding insert_history Remaining
  insert_history_keeps h ks = Leads-statement (insert_history h) (λ db r. r) (λ db r. ground arith)

  requeue_job_done :
      (k : Job) (ks : List Job)
      → LeadsOk (Remaining (k ∷ ks)) (Remaining ks) (requeue_job now wid k)
  unfolding requeue_job
  requeue_job_done k ks =
      LeadsOk-bind _ _ (λ a. Remaining ks) (requeues_first k ks)
        (λ _.
          LeadsOk-bind _ _ (λ n. Remaining ks) (λ w n h ran. (next_attempt_keeps k.id ks).holds w h)
            (λ n. LeadsOk-Leads (insert_history_keeps _ ks)))

  requeue_loop :
      (ks : List Job) → LeadsOk (Remaining ks) (Remaining []) (for_each ks (requeue_job now wid))
  unfolding for_each
  requeue_loop [] = LeadsOk-pure tt (λ db h. h)
  requeue_loop (k ∷ ks) =
      LeadsOk-bind _ _ (λ a. Remaining ks) (λ w a h ran. (requeue_job_done k ks).holds w a h ran)
        (λ _. requeue_loop ks)

  held_listed :
      (w : World) (js : List Job)
      → All (λ v. reapable wid e v ≡ false) w.db.workers
      → (statement (jobs_held_by wid) w).0 ≡ ok js
      → Remaining js (statement (jobs_held_by wid) w).1.db
  unfolding Remaining jobs_held_by
  held_listed w js gone done =
      let (ran, left) = statement-eq-ok (jobs_held_by wid) w done in
      let listed : select (held_by wid) w.db.jobs ≡ js = ground arith in
      subst (λ ks. Remaining ks (statement (jobs_held_by wid) w).1.db) listed
        (subst (Remaining (select (held_by wid) w.db.jobs)) (sym left)
          (gone, All-selected w.db.jobs))

  requeue_all_done :
      LeadsOk
        (λ db. All (λ v. reapable wid e v ≡ false) db.workers)
        (Remaining [])
        (requeue_all now wid e)
  unfolding requeue_all insert_event Remaining
  requeue_all_done = LeadsOk-bind _ _ Remaining held_listed (λ js.
      LeadsOk-bind _ _ (λ a. Remaining []) (λ w a h ran. (requeue_loop js).holds w a h ran)
        (λ _. LeadsOk-Leads (Leads-statement (insert_event wid _) (λ db h. h) (λ db h. h))))

  buried :
      (w : World) (n : ℕ)
      → count (reapable wid e) w.db.workers ≢ 0
      → (statement (mark_dead wid e) w).0 ≡ ok n
      → (n ≢ 0) × All (λ v. reapable wid e v ≡ false) (statement (mark_dead wid e) w).1.db.workers
  unfolding mark_dead
  buried w n some_live done =
      let (ran, left) = statement-eq-ok (mark_dead wid e) w done in
      let retired =
        All-after_update (λ v. reapable wid e v ≡ false) (reapable wid e)
          (λ v. record v { status = dead; available_capacity = v.capacity_slots }) w.db.workers
          (λ v hit. ground arith) (λ v miss. miss) in
      (
        ground arith,
        subst (λ (db : Db). All (λ v. reapable wid e v ≡ false) db.workers) (sym left) retired,
      )

  -- The worker is not live under the epoch, and it holds no job.
  abbrev pub IsRetired : Db → Type 0
  IsRetired db =
      All (λ v. reapable wid e v ≡ false) db.workers × All (λ j. held_by wid j ≡ false) db.jobs

  retired : (db : Db) → Remaining [] db → IsRetired db
  unfolding Remaining
  retired db (gone, listed) = (gone, All-map db.jobs (λ j none_left. free j none_left) listed)
    where
      free : (j : Job) → (held_by wid j ≡ true → false ≡ true) → held_by wid j ≡ false
      free j none_left = elim (Bool-cases (held_by wid j)) [
        | inl t ↦ absurd (cc (none_left t))
        | inr f ↦ f
      ]

  requeue_or_skip :
      (n : ℕ)
      → LeadsOk
          (λ db. (n ≢ 0) × All (λ v. reapable wid e v ≡ false) db.workers)
          IsRetired
          (if n == 0 then pure tt else requeue_all now wid e)
  requeue_or_skip n = elim (Bool-cases (n == 0)) [
    | inl t ↦ rw t (record { holds = λ w a h done. absurd (h.0 (ground arith)) })
    | inr f ↦ rw f (record {
      holds = λ w a h done.
          retired (requeue_all now wid e w).1.db (requeue_all_done.holds w a h.1 done);
    })
  ]

  reaping :
      LeadsOk
        (λ db. count (reapable wid e) db.workers ≢ 0)
        IsRetired
        (statement (mark_dead wid e) >>= λ n. if n == 0 then pure tt else requeue_all now wid e)
  reaping =
      LeadsOk-bind _ _ (λ n db. (n ≢ 0) × All (λ v. reapable wid e v ≡ false) db.workers) buried
        requeue_or_skip

  -- With a live row of the worker under the epoch, MarkDeadAndRequeue either commits, and then the
  -- worker is not live under the epoch and holds no job, or fails and leaves the database as it
  -- was.
  pub mark_dead_and_requeue-IsRetired :
      (w : World)
      → count (reapable wid e) w.db.workers ≢ 0
      → ((mark_dead_and_requeue now wid e w).0 ≡ ok tt
          → IsRetired (mark_dead_and_requeue now wid e w).1.db)
        × ((x : Error)
            → (mark_dead_and_requeue now wid e w).0 ≡ err x
            → (mark_dead_and_requeue now wid e w).1.db ≡ w.db)
  unfolding mark_dead_and_requeue
  mark_dead_and_requeue-IsRetired w some_live = (
    λ done.
        let (ran, left) = begin_func-eq-ok _ w done in
        subst IsRetired (sym left) (reaping.holds (begun w) tt some_live ran),
    λ x failed. begin_func-eq-err _ w failed,
  )
