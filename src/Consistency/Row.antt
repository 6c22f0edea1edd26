-- ===== src/Consistency/Row.antt =====
-- What becomes of one row of the jobs table: a property of the row that every change the program
-- may make to a job keeps, internal/store/postgres.
pub mod Stores
pub mod Jobs
pub mod Requeues
pub mod Retries
pub mod Kept
use fleetforge.Base.{
  ℕ, ◌≡◌, refl, sym, ap, subst, ◌∙◌, Bool, true, false, Option, none, some, String, List, [], ◌∷◌,
  arith, All, is_some, query_row, query_row_sound, update, select, All-query_row, All-updated,
  found-update, Bool-cases, inl, inr, if◌then◌else◌, ◌⊎◌,
}
use fleetforge.Base.Int.{leb_ℤ}
use fleetforge.Schema.{
  Uuid, Instant, Job, JobStatus, queued, assigned, running, failed, retrying, is_held,
  job_status_eq, Db,
}
use fleetforge.World.{Result, Action, statement}
use fleetforge.Effects.{Keeps, Keeps-statement}
use fleetforge.Statements.{job_at}
use fleetforge.WorkerStore.Assign.{assigned_to}
use fleetforge.WorkerStore.Liveness.{requeued}
use fleetforge.JobStore.Backoff.{next_retries}
use fleetforge.JobStore.Transitions.{finish_job, park}
use fleetforge.Consistency.Statements.{SameKey}
use fleetforge.Consistency.Jobs.{is_final}

-- The row of the job's key is the job.
pub record IsStored (j : Job) (js : List Job) : Type 0 where
  pub only : All (λ k. job_at j.id j.created_at k ≡ true → k ≡ j) js
  pub there : is_some (query_row (job_at j.id j.created_at) js) ≡ true

-- Some row, the only one under its key, has the property.
pub record HasRow (P : Job → Type 0) (js : List Job) : Type 0 where
  pub row : Job
  pub stored : IsStored row js
  pub holds : P row

abbrev pub HasRowIn : (Job → Type 0) → Db → Type 0
HasRowIn P db = HasRow P db.jobs

-- The changes that the program makes to a job's row, each with what it requires of the row.
pub record Allows (P : Job → Type 0) : Type 0 where
  pub takes :
      (wid : Uuid) (e : ℕ) (j : Job)
      → job_status_eq j.status queued ≡ true
      → P j
      → P (assigned_to wid e j)
  pub starts :
      (now : Instant) (j : Job)
      → job_status_eq j.status assigned ≡ true
      → P j
      → P (record j { status = running; started_at = some now })
  pub finishes :
      (now : Instant) (s : JobStatus) (log_ref : Option String) (j : Job)
      → is_held j.status ≡ true
      → is_final s ≡ true
      → job_status_eq s failed ≡ false
      → P j
      → P (finish_job now s log_ref j)
  pub parks :
      (at : Instant) (j : Job)
      → is_held j.status ≡ true
      → leb_ℤ (next_retries j.retries) j.max_retries ≡ true
      → P j
      → P (park (next_retries j.retries) at j)
  pub exhausts :
      (now : Instant) (log_ref : Option String) (j : Job)
      → is_held j.status ≡ true
      → leb_ℤ (next_retries j.retries) j.max_retries ≡ false
      → P j
      → P (finish_job now failed log_ref j)
  pub requeues : (j : Job) → is_held j.status ≡ true → P j → P (requeued j)
  pub unparks :
      (j : Job)
      → job_status_eq j.status retrying ≡ true
      → P j
      → P (record j { status = queued; retry_at = none })

module _ (p : Job → Bool) (f : Job → Job) where
  abbrev pub updated : Job → Job
  updated j = if p j then f j else j

  module _ (same : SameKey p f) where
    updated-id : (j : Job) → (updated j).id ≡ j.id
    updated-id j = elim (Bool-cases (p j)) [ inl t ↦ rw t (same.same_id j) | inr n ↦ rw n refl ]

    updated-created_at : (j : Job) → (updated j).created_at ≡ j.created_at
    updated-created_at j = elim (Bool-cases (p j)) [
      | inl t ↦ rw t (same.same_created_at j)
      | inr n ↦ rw n refl
    ]

    pub IsStored-update :
        (j : Job) (js : List Job) → IsStored j js → IsStored (updated j) (update p f js)
    IsStored-update j js h = record {
      only =
          All-updated (λ k. job_at j.id j.created_at k ≡ true → k ≡ j)
            (λ k. job_at (updated j).id (updated j).created_at k ≡ true → k ≡ updated j) p f js
            (λ k only at. ap updated (
              only (
                rw (updated-id j, updated-created_at j, updated-id k, updated-created_at k) at at)))
            h.only;
      there =
          let found =
            found-update (job_at j.id j.created_at) p f js
              (λ k at. rw (same.same_id k, same.same_created_at k) at) h.there in
          rw (updated-id j, updated-created_at j) found;
    }

    pub HasRow-update :
        (P : Job → Type 0) (js : List Job)
        → ((j : Job) → p j ≡ true → P j → P (f j))
        → HasRow P js
        → HasRow P (update p f js)
    HasRow-update P js step h = record {
      row = updated h.row;
      stored = IsStored-update h.row js h.stored;
      holds = elim (Bool-cases (p h.row)) [
        | inl t ↦ rw t (step h.row t h.holds)
        | inr n ↦ rw n h.holds
      ];
    }

    -- An update that misses the row.
    pub IsStored-update_apart :
        (j : Job) (js : List Job) → p j ≡ false → IsStored j js → IsStored j (update p f js)
    IsStored-update_apart j js misses h =
        subst (λ k. IsStored k (update p f js)) (rw misses refl) (IsStored-update j js h)

    pub IsStored-update_hit :
        (j : Job) (js : List Job) → p j ≡ true → IsStored j js → IsStored (f j) (update p f js)
    IsStored-update_hit j js hits h =
        subst (λ k. IsStored k (update p f js)) (rw hits refl) (IsStored-update j js h)

pub IsStored-insert :
    (j k : Job) (js : List Job)
    → job_at j.id j.created_at k ≡ false
    → IsStored j js
    → IsStored j (k ∷ js)
unfolding query_row
IsStored-insert j k js apart h = record {
  only = ((λ at. absurd (cc)), h.only);
  there = rw apart h.there;
}

-- A row that a statement found under a key is the row, or the row has another key.
pub found_row :
    (j : Job) (p : Job → Bool) (jid : Uuid) (created : Instant) (js : List Job) {k : Job}
    → ((x : Job) → p x ≡ true → job_at jid created x ≡ true)
    → IsStored j js
    → query_row p js ≡ some k
    → (job_at jid created j ≡ false) ⊎ ((k ≡ j) × (p k ≡ true))
found_row j p jid created js {k} keyed h found = elim (Bool-cases (job_at jid created j)) [
  | inr e ↦ inl e
  | inl e ↦
      let hits = query_row_sound p js found in
      let at : job_at jid created k ≡ true = keyed k hits in
      let own : job_at j.id j.created_at k ≡ true = ground arith in
      inr
        (All-query_row (λ k. job_at j.id j.created_at k ≡ true → k ≡ j) p js h.only found own, hits)
]

other_key :
    (j k : Job) (p : Job → Bool)
    → p j ≡ false
    → p k ≡ true
    → (job_at j.id j.created_at k ≡ true → k ≡ j)
    → job_at k.id k.created_at j ≡ false
other_key j k p misses hits only = elim (Bool-cases (job_at k.id k.created_at j)) [
  | inr e ↦ e
  | inl e ↦
      let own : job_at j.id j.created_at k ≡ true = ground arith in
      let hit : p j ≡ true = subst (λ x. p x ≡ true) (only own) hits in absurd (cc)
]

-- The rows that a SELECT returned have another key, if the row itself does not match.
pub select-apart :
    (j : Job) (p : Job → Bool) (js : List Job)
    → p j ≡ false
    → All (λ k. job_at j.id j.created_at k ≡ true → k ≡ j) js
    → All (λ k. job_at k.id k.created_at j ≡ false) (select p js)
unfolding select
select-apart j p [] misses h = tt
select-apart j p (k ∷ js) misses h = elim (Bool-cases (p k)) [
  | inr e ↦ rw e (select-apart j p js misses h.1)
  | inl e ↦ rw e (other_key j k p misses e h.0, select-apart j p js misses h.1)
]

-- A statement that leaves the table of jobs alone.
pub other_table-Keeps :
    (Q : List Job → Type 0) {A : Type 0} (f : Db → Result A × Db)
    → ((db : Db) → (f db).1.jobs ≡ db.jobs)
    → Keeps (λ db. Q db.jobs) (statement f)
other_table-Keeps Q f same = Keeps-statement f (λ db h. subst Q (sym (same db)) h)

-- A statement that changes the rows of its WHERE clause.
pub update_jobs-Keeps :
    (P : Job → Type 0) {A : Type 0} (r : Db → Result A) (p : Job → Bool) (f : Job → Job)
    → SameKey p f
    → ((j : Job) → p j ≡ true → P j → P (f j))
    → Keeps (HasRowIn P) (statement (λ db. (r db, record db { jobs = update p f db.jobs })))
update_jobs-Keeps P r p f same step =
    Keeps-statement _ (λ db h. HasRow-update p f same P db.jobs step h)
