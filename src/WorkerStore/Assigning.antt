-- ===== src/WorkerStore/Assigning.antt =====
-- AssignJob is all or nothing, and a job that it gave away is not given away again,
-- internal/store/postgres/workers.go.
use fleetforge.Base.{
  ℕ, ◌≤◌, ◌≡◌, ◌≢◌, ◌⊎◌, inl, inr, refl, ◌∙◌, Bool, true, false, List, [], ◌∷◌, arith, All-map,
  update, count, update_none, count-zero, count_none, Bool-cases, ap,
}
use fleetforge.Schema.{Uuid, Instant, Worker, Db}
use fleetforge.World.{
  World, Result, ok, err, job_assign_race_lost, Error, Action, pure, throw, attempt, statement,
  begin_func, and_then, ◌>>=◌,
}
use fleetforge.Effects.{begun, begin_func-eq-ok, begin_func-eq-err}
use fleetforge.Consistency.{Differ}
use fleetforge.WorkerStore.Assign.{
  assignable, taken, take_worker, is_queued_at, assigned_to, take_job, assign_body, forgive_race,
  assign_job,
}

module _ (jid : Uuid) (created : Instant) (wid : Uuid) (e : ℕ) where
  -- The database with both rows changed.
  abbrev pub both_changed : Db → Db
  both_changed db = record db {
    workers = update (assignable wid e) (taken jid created) db.workers;
    jobs = update (is_queued_at jid created) (assigned_to wid e) db.jobs;
  }

  -- What an assignment that went through found and did.
  abbrev pub Assigned : Db → Db → Type 0
  Assigned before after =
      (count (assignable wid e) before.workers ≡ 1)
      × (count (is_queued_at jid created) before.jobs ≡ 1)
      × (after ≡ both_changed before)

  -- What the committed transaction did.
  abbrev Outcome : Bool → Db → Db → Type 0
  Outcome true before after = Assigned before after
  Outcome false before after =
      (count (assignable wid e) before.workers ≢ 1)
      × (after ≡ (take_worker jid created wid e before).1)

  assign_body-Outcome :
      (w : World) (b : Bool)
      → (assign_body jid created wid e w).0 ≡ ok b
      → Outcome b w.db (assign_body jid created wid e w).1.db
  unfolding assign_body ◌>>=◌ and_then statement pure throw take_worker take_job
  assign_body-Outcome w true h = (ground arith, ground arith, ground arith)
  assign_body-Outcome w false h = (ground arith, ground arith)

pub one_at_most :
    (wid : Uuid) (e : ℕ) (ws : List Worker)
    → Differ (λ (w : Worker). w.id) ws
    → count (assignable wid e) ws ≤ 1
unfolding count
one_at_most wid e [] d = omega arith
one_at_most wid e (w ∷ ws) d = elim (Bool-cases (assignable wid e w)) [
  | inl hit ↦
      let none_left : count (assignable wid e) ws ≡ 0 =
        count_none (assignable wid e) ws (All-map ws (λ v differs. others w hit v differs) d.0) in
      rw hit (omega (arith, none_left))
  | inr miss ↦ rw miss (one_at_most wid e ws d.1)
]
  where
    others :
        (w : Worker)
        → assignable wid e w ≡ true
        → (v : Worker) → v.id ≢ w.id
        → assignable wid e v ≡ false
    others w hit v differs = ground arith

module _ (jid : Uuid) (created : Instant) (wid : Uuid) (e : ℕ) where
  take_worker_none :
      (db : Db)
      → count (assignable wid e) db.workers ≡ 0
      → (take_worker jid created wid e db).1 ≡ db
  unfolding take_worker
  take_worker_none db none_match =
      let same =
        update_none (assignable wid e) (taken jid created) db.workers
          (count-zero (assignable wid e) db.workers none_match) in
      ground (arith, same)

  Outcome-cases :
      (before after : Db) (b : Bool)
      → Differ (λ (v : Worker). v.id) before.workers
      → Outcome jid created wid e b before after
      → (b ≡ true) × Assigned jid created wid e before after ⊎ (b ≡ false) × (after ≡ before)
  Outcome-cases before after true d o = inl (refl, o)
  Outcome-cases before after false d o =
      let none_match : count (assignable wid e) before.workers ≡ 0 =
        omega (arith, one_at_most wid e before.workers d, o.0) in
      inr (refl, o.1 ∙ take_worker_none before none_match)

  -- The two possible results of an assignment.
  abbrev pub AllOrNothing : Db → Result Bool × World → Type 0
  AllOrNothing before (r, v) =
      (r ≡ ok true) × Assigned jid created wid e before v.db ⊎ (r ≢ ok true) × (v.db ≡ before)

  settled :
      (before : Db) (r : Result Bool) (v : World)
      → ((b : Bool)
          → r ≡ ok b
          → (b ≡ true) × Assigned jid created wid e before v.db ⊎ (b ≡ false) × (v.db ≡ before))
      → ((x : Error) → r ≡ err x → v.db ≡ before)
      → AllOrNothing before (forgive_race r v)
  unfolding forgive_race pure throw
  settled before (ok b) v done failed = elim (done b refl) [
    | inl (t, a) ↦ inl (ap ok t, a)
    | inr (f, kept) ↦ inr (λ won. cc, kept)
  ]
  settled before (err job_assign_race_lost) v done failed =
      inr (λ won. cc, failed job_assign_race_lost refl)
  settled before (err x) v done failed = inr (λ won. cc, failed x refl)

  -- With distinct worker ids, AssignJob either returns true, and then exactly one READY worker
  -- with the id, the epoch and spare capacity and exactly one QUEUED job with the key were there
  -- and both rows changed, or it returns something else, an error included, and the database is
  -- what it was.
  pub assign_job-atomic :
      (w : World)
      → Differ (λ (v : Worker). v.id) w.db.workers
      → AllOrNothing w.db (assign_job jid created wid e w)
  unfolding assign_job ◌>>=◌ and_then attempt
  assign_job-atomic w d =
      settled w.db (begin_func body w).0 (begin_func body w).1
        (λ b done.
          let (ran, left) = begin_func-eq-ok body w done in
          rw left (
            Outcome-cases w.db (body (begun w)).1.db b d
              (assign_body-Outcome jid created wid e (begun w) b ran)))
        (λ x failed. begin_func-eq-err body w failed)
    where
      body : Action Bool
      body = assign_body jid created wid e
