-- ===== src/Consistency/Statements.antt =====
-- Every statement that changes a table keeps the database consistent.
use fleetforge.Base.{
  ℕ, ◌+◌, ◌≤◌, ◌≡◌, ◌≢◌, refl, Bool, true, false, Option, none, some, List, [], ◌∷◌, arith, All,
  All-map, All-update, All-zip, All-trivial, query_row-none, found-update, Bool-cases, inl, inr,
  query_row, is_some, update, count,
}
use fleetforge.Schema.{Uuid, Instant, Worker, Job, RetryHistory, Db, EventType}
use fleetforge.Statements.{job_at, has_id, insert_event, insert_history, same_attempt, of_job}
use fleetforge.Consistency.{
  IsSoundJob, IsSoundWorker, Differ, since_epoch, is_known, IsFenced, IsConsistent, KeysDiffer,
}

-- A worker's update that keeps its id and does not lower its epoch.
pub record KeepsIdentity (p : Worker → Bool) (f : Worker → Worker) : Type 0 where
  pub sound : (w : Worker) → p w ≡ true → IsSoundWorker w → IsSoundWorker (f w)
  pub same_id : (w : Worker) → (f w).id ≡ w.id
  pub later : (w : Worker) → w.epoch ≤ (f w).epoch

module _ {p : Worker → Bool} {f : Worker → Worker} (k : KeepsIdentity p f) where
  still_known :
      (ws : List Worker) (wid : Option Uuid) (e : Option ℕ)
      → is_known ws wid e ≡ true
      → is_known (update p f ws) wid e ≡ true
  still_known ws none e h = refl
  still_known ws (some wid) none h = refl
  still_known ws (some wid) (some e) h =
      found-update (since_epoch wid e) p f ws (λ w hw. ground (arith, k.same_id w, k.later w)) h

  others_differ :
      (i : Uuid) (ws : List Worker)
      → All (λ (v : Worker). v.id ≢ i) ws
      → All (λ (v : Worker). v.id ≢ i) (update p f ws)
  others_differ i ws =
      All-update (λ (v : Worker). v.id ≢ i) p f ws (λ w _ ne. ground (arith, k.same_id w))

  ids-Differ-update :
      (ws : List Worker)
      → Differ (λ (w : Worker). w.id) ws
      → Differ (λ (w : Worker). w.id) (update p f ws)
  unfolding update
  ids-Differ-update [] h = tt
  ids-Differ-update (w ∷ ws) h = elim (Bool-cases (p w)) [
    | inl t ↦ rw (t, k.same_id w) (others_differ w.id ws h.0, ids-Differ-update ws h.1)
    | inr e ↦ rw e (others_differ w.id ws h.0, ids-Differ-update ws h.1)
  ]

  pub IsConsistent-update_workers :
      (db : Db) → IsConsistent db → IsConsistent (record db { workers = update p f db.workers })
  IsConsistent-update_workers db c = record {
    jobs_sound = c.jobs_sound;
    workers_sound = All-update IsSoundWorker p f db.workers k.sound c.workers_sound;
    ids_differ = ids-Differ-update db.workers c.ids_differ;
    keys_differ = c.keys_differ;
    numbered = c.numbered;
    fenced =
        All-map db.jobs (λ j h. still_known db.workers j.worker_id j.assignment_epoch h) c.fenced;
  }

-- A job's update that keeps its key.
pub record SameKey (p : Job → Bool) (f : Job → Job) : Type 0 where
  pub same_id : (j : Job) → (f j).id ≡ j.id
  pub same_created_at : (j : Job) → (f j).created_at ≡ j.created_at

pub record KeepsKey (ws : List Worker) (p : Job → Bool) (f : Job → Job) : Type 0 where
  pub same : SameKey p f
  pub sound : (j : Job) → p j ≡ true → IsSoundJob j → IsSoundJob (f j)
  pub fenced : (j : Job) → p j ≡ true → IsFenced ws j → IsFenced ws (f j)

module _ {p : Job → Bool} {f : Job → Job} (k : SameKey p f) where
  others_apart :
      (i : Uuid) (t : Instant) (js : List Job)
      → All (λ j. job_at i t j ≡ false) js
      → All (λ j. job_at i t j ≡ false) (update p f js)
  others_apart i t js =
      All-update (λ j. job_at i t j ≡ false) p f js
        (λ j _ apart. ground (arith, k.same_id j, k.same_created_at j))

  KeysDiffer-update : (js : List Job) → KeysDiffer js → KeysDiffer (update p f js)
  unfolding update
  KeysDiffer-update [] h = tt
  KeysDiffer-update (j ∷ js) h = elim (Bool-cases (p j)) [
    | inl t ↦
        rw (t, k.same_id j, k.same_created_at j)
          (others_apart j.id j.created_at js h.0, KeysDiffer-update js h.1)
    | inr e ↦ rw e (others_apart j.id j.created_at js h.0, KeysDiffer-update js h.1)
  ]

-- An update of rows of which more is known, `R`.
pub IsConsistent-update_rows :
    {p : Job → Bool} {f : Job → Job} (R : Job → Type 0) (db : Db)
    → SameKey p f
    → ((j : Job) → p j ≡ true → R j × IsSoundJob j → R (f j) × IsSoundJob (f j))
    → ((j : Job) → p j ≡ true → IsFenced db.workers j → IsFenced db.workers (f j))
    → All R db.jobs
    → IsConsistent db
    → IsConsistent (record db { jobs = update p f db.jobs })
IsConsistent-update_rows {p} {f} R db same sound fenced rows c = record {
  jobs_sound =
      All-map (update p f db.jobs) (λ j h. h.1)
        (All-update (λ j. R j × IsSoundJob j) p f db.jobs sound
          (All-zip R IsSoundJob db.jobs rows c.jobs_sound));
  workers_sound = c.workers_sound;
  ids_differ = c.ids_differ;
  keys_differ = KeysDiffer-update same db.jobs c.keys_differ;
  numbered = c.numbered;
  fenced = All-update (IsFenced db.workers) p f db.jobs fenced c.fenced;
}

pub IsConsistent-update_jobs :
    {p : Job → Bool} {f : Job → Job} (db : Db)
    → KeepsKey db.workers p f
    → IsConsistent db
    → IsConsistent (record db { jobs = update p f db.jobs })
IsConsistent-update_jobs {p} {f} db k c =
    IsConsistent-update_rows (λ j. Unit) db k.same (λ j hit h. (tt, k.sound j hit h.1)) k.fenced
      (All-trivial db.jobs) c

known_after_insert :
    (w : Worker) (ws : List Worker) (wid : Option Uuid) (e : Option ℕ)
    → is_known ws wid e ≡ true
    → is_known (w ∷ ws) wid e ≡ true
unfolding query_row
known_after_insert w ws none e h = refl
known_after_insert w ws (some wid) none h = refl
known_after_insert w ws (some wid) (some e) h = ground arith

pub IsConsistent-insert_worker :
    (w : Worker) (db : Db)
    → IsSoundWorker w
    → query_row (has_id w.id) db.workers ≡ none
    → IsConsistent db
    → IsConsistent (record db { workers = w ∷ db.workers })
IsConsistent-insert_worker w db sound new c = record {
  jobs_sound = c.jobs_sound;
  workers_sound = (sound, c.workers_sound);
  ids_differ = (
    All-map db.workers (λ v h. ground arith) (query_row-none (has_id w.id) db.workers new),
    c.ids_differ,
  );
  keys_differ = c.keys_differ;
  numbered = c.numbered;
  fenced =
      All-map db.jobs (λ j h. known_after_insert w db.workers j.worker_id j.assignment_epoch h)
        c.fenced;
}

pub IsConsistent-insert_job :
    (j : Job) (db : Db)
    → IsSoundJob j
    → IsFenced db.workers j
    → query_row (job_at j.id j.created_at) db.jobs ≡ none
    → IsConsistent db
    → IsConsistent (record db { jobs = j ∷ db.jobs })
IsConsistent-insert_job j db sound fenced new c = record {
  jobs_sound = (sound, c.jobs_sound);
  workers_sound = c.workers_sound;
  ids_differ = c.ids_differ;
  keys_differ = (query_row-none (job_at j.id j.created_at) db.jobs new, c.keys_differ);
  numbered = c.numbered;
  fenced = (fenced, c.fenced);
}

pub insert_event-IsConsistent :
    (wid : Uuid) (event : EventType) (db : Db)
    → IsConsistent db
    → IsConsistent (insert_event wid event db).1
unfolding insert_event
insert_event-IsConsistent wid event db c = record {
  jobs_sound = c.jobs_sound;
  workers_sound = c.workers_sound;
  ids_differ = c.ids_differ;
  keys_differ = c.keys_differ;
  numbered = c.numbered;
  fenced = c.fenced;
}

-- A history row that carries the number that was counted just before.
pub insert_history-IsConsistent :
    (h : RetryHistory) (db : Db)
    → h.attempt_number ≡ count (of_job h.job_id) db.history + 1
    → IsConsistent db
    → IsConsistent (insert_history h db).1
unfolding insert_history
insert_history-IsConsistent h db next c =
    elim (Bool-cases (is_some (query_row (same_attempt h.job_id h.attempt_number) db.history))) [
      | inl taken ↦ rw taken c
      | inr free ↦ rw free (record {
        jobs_sound = c.jobs_sound;
        workers_sound = c.workers_sound;
        ids_differ = c.ids_differ;
        keys_differ = c.keys_differ;
        numbered = (next, c.numbered);
        fenced = c.fenced;
      })
    ]
