-- ===== src/Scheduler/Matching.antt =====
-- The matching loop gets a job to a worker when no call fails, internal/scheduler/loop.go.
use fleetforge.Base.{
  ℕ, ◌+◌, ◌<◌, ◌≡◌, ◌≢◌, ◌⊎◌, inl, inr, refl, sym, ap, subst, Bool, true, false, ◌==◌, some, String,
  List, [], ◌∷◌, arith, All, All-map, All-mem, count-nonzero, map, select, query_row, update, count,
  count_none, Bool-cases, is_some,
}
use mathlib.Core.List.{Memᴰ}
use fleetforge.Schema.{Uuid, Instant, Worker, Job, queued, busy, job_status_eq, Db}
use fleetforge.Statements.{job_with_id, job_at}
use fleetforge.World.{
  World, Redis, ok, Message, begin_func, finish, statement, attempt, command, ◌>>=◌, and_then, pure,
  throw,
}
use fleetforge.Consistency.{Differ, KeysDiffer, IsSoundWorker}
use fleetforge.WorkerStore.Assign.{
  Candidate, is_candidate, to_candidate, assignable, is_queued_at, assign_job, assign_body,
  forgive_race, take_worker, take_job, list_ready_candidates, assigned_to,
}
use fleetforge.WorkerStore.Assigning.{one_at_most, both_changed}
use fleetforge.Base.Int.{sub_ℕ}
use fleetforge.JobStore.Create.{get}
use fleetforge.RedisStore.Cache.{write_key, set_state}
use fleetforge.RedisStore.Queue.{remove_pending, ack}
use fleetforge.Scheduler.Loop.{
  after_assignment, settle, assign_to, match_candidates, match_job, process_job, process_message,
}
use fleetforge.Scheduler.Select.{Floats, fraction, better, select_from, select_least_loaded}

module _ (floats : Floats) where
  select_from-mem :
      (b : Candidate) (f : floats.Float) (cs : List Candidate)
      → (d : Candidate) × (g : floats.Float) × (select_from floats (some (b, f)) cs ≡ some (d, g))
        × ((d ≡ b) ⊎ Memᴰ d cs)
  unfolding select_from better
  select_from-mem b f [] = (b, f, refl, inl refl)
  select_from-mem b f (c ∷ cs) = elim (Bool-cases (c.capacity_slots == 0)) [
    | inl empty ↦ (let (d, g, is_d, m) = select_from-mem b f cs in (d, g, rw empty is_d, later c m))
    | inr slots ↦ elim (Bool-cases (floats.gt (fraction floats c) f)) [
      | inl freer ↦
          (let (d, g, is_d, m) = select_from-mem c (fraction floats c) cs in
            (d, g, rw (slots, freer) is_d, inr (found m)))
      | inr fuller ↦
          (let (d, g, is_d, m) = select_from-mem b f cs in
            (d, g, rw (slots, fuller) is_d, later c m))
    ]
  ]
    where
      later :
          (c : Candidate) {d b : Candidate} {cs : List Candidate}
          → (d ≡ b) ⊎ Memᴰ d cs
          → (d ≡ b) ⊎ Memᴰ d (c ∷ cs)
      later c (inl e) = inl e
      later c (inr m) = inr (Memᴰ.tail m)

      found : {c d : Candidate} {cs : List Candidate} → (d ≡ c) ⊎ Memᴰ d cs → Memᴰ d (c ∷ cs)
      found (inl e) = Memᴰ.head e
      found (inr m) = Memᴰ.tail m

  -- Whatever the fractions are, one of the candidates is picked, if there are any and all have slots.
  pub select_least_loaded-mem :
      (cs : List Candidate)
      → cs ≢ []
      → All (λ (c : Candidate). 0 < c.capacity_slots) cs
      → (d : Candidate) × (select_least_loaded floats cs ≡ some d) × Memᴰ d cs
  unfolding select_least_loaded select_from better
  select_least_loaded-mem [] some_one h = absurd (some_one refl)
  select_least_loaded-mem (c ∷ cs) some_one h =
      let slots : (c.capacity_slots == 0) ≡ false = ground arith in
      let (d, g, is_d, m) = select_from-mem c (fraction floats c) cs in
      (
        d,
        rw (slots, is_d, select_least_loaded) refl,
        elim m [ inl e ↦ Memᴰ.head e | inr n ↦ Memᴰ.tail n ],
      )

pub candidates_have_slots :
    (ws : List Worker)
    → All IsSoundWorker ws
    → (p : Worker → Bool)
    → All (λ (c : Candidate). 0 < c.capacity_slots) (map to_candidate (select p ws))
unfolding select
candidates_have_slots [] h p = tt
candidates_have_slots (w ∷ ws) h p = elim (Bool-cases (p w)) [
  | inl t ↦ rw t (h.0.has_slots, candidates_have_slots ws h.1 p)
  | inr f ↦ rw f (candidates_have_slots ws h.1 p)
]

-- In a consistent database the row is the only one under its key.
pub one_queued :
    (j : Job) (js : List Job)
    → KeysDiffer js
    → Memᴰ j js
    → is_queued_at j.id j.created_at j ≡ true
    → count (is_queued_at j.id j.created_at) js ≡ 1
unfolding count
one_queued j [] d m hit = elim m [ ]
one_queued j (k ∷ js) d (Memᴰ.head e) hit =
    let own : is_queued_at k.id k.created_at k ≡ true =
      subst (λ (i : Job). is_queued_at i.id i.created_at i ≡ true) e hit in
    let others : count (is_queued_at k.id k.created_at) js ≡ 0 =
      count_none (is_queued_at k.id k.created_at) js (All-map js (λ i apart. ground arith) d.0) in
    subst (λ (i : Job). count (is_queued_at i.id i.created_at) (k ∷ js) ≡ 1) (sym e)
      (rw own (omega (arith, others)))
one_queued j (k ∷ js) d (Memᴰ.tail m) hit =
    let apart = All-mem (λ i. job_at k.id k.created_at i ≡ false) js d.0 m in
    let miss : is_queued_at j.id j.created_at k ≡ false = ground arith in
    rw miss (one_queued j js d.1 m hit)

pub one_assignable :
    (v : Worker) (req : List String) (ws : List Worker)
    → Differ (λ (w : Worker). w.id) ws
    → Memᴰ v ws
    → is_candidate req v ≡ true
    → count (assignable v.id v.epoch) ws ≡ 1
one_assignable v req ws d m hit =
    let hits : assignable v.id v.epoch v ≡ true = ground arith in
    omega (arith, one_at_most v.id v.epoch ws d, count-nonzero (assignable v.id v.epoch) hits ws m)

-- A world in which no call fails.
abbrev pub calm : Redis → Db → ℕ → World
calm r db n = record { db = db; redis = r; fails = λ _. false; calls = n }

assign_job-calm :
    (jid : Uuid) (created : Instant) (wid : Uuid) (e : ℕ) (r : Redis) (db : Db) (n : ℕ)
    → count (assignable wid e) db.workers ≡ 1
    → count (is_queued_at jid created) db.jobs ≡ 1
    → is_some (query_row (job_at jid created) db.jobs) ≡ true
    → assign_job jid created wid e (calm r db n)
      ≡ (ok true, calm r (both_changed jid created wid e db) (n + 1 + 1 + 1 + 1))
unfolding assign_job assign_body forgive_race take_worker take_job begin_func finish statement
    attempt ◌>>=◌ and_then pure throw
assign_job-calm jid created wid e r db n one_worker one_job there =
    rw (one_worker, there, one_job) refl

-- The row that the loop found, after the assignment.
pub assigned_row :
    (jid : Uuid) (j : Job) (wid : Uuid) (e : ℕ) (js : List Job)
    → query_row (job_with_id jid) js ≡ some j
    → job_status_eq j.status queued ≡ true
    → query_row (job_with_id jid) (update (is_queued_at j.id j.created_at) (assigned_to wid e) js)
      ≡ some (assigned_to wid e j)
unfolding query_row update assigned_to
assigned_row jid j wid e [] found waiting = absurd (cc)
assigned_row jid j wid e (x ∷ xs) found waiting = elim (Bool-cases (x.id == jid)) [
  | inl t ↦
      let same : x ≡ j = ground arith in
      let hit : is_queued_at j.id j.created_at x ≡ true =
        subst (λ i. is_queued_at j.id j.created_at i ≡ true) (sym same) (ground arith) in
      rw (hit, t) (ap (λ i. some (assigned_to wid e i)) same)
  | inr f ↦
      let rest = assigned_row jid j wid e xs (ground arith) waiting in
      elim (Bool-cases (is_queued_at j.id j.created_at x)) [
        | inl hit ↦ rw (hit, f) rest
        | inr miss ↦ rw (miss, f) rest
      ]
]

-- What the cache says of the chosen worker after the assignment.
abbrev pub mirrored : Candidate → Job → Redis → Redis
mirrored chosen j r = record r {
  states =
      write_key chosen.id
        (record (r.states chosen.id) {
          state = some (record {
            epoch = chosen.epoch;
            status = busy;
            current_job_id = some j.id;
            available_capacity = sub_ℕ chosen.available_capacity 1;
            last_pg_flush_unix = 0;
          });
        })
        r.states;
}

abbrev pub acknowledged : ℕ → ℕ → Redis → Redis
acknowledged p n r = record r { streams = write_key p (remove_pending n (r.streams p)) r.streams }

module _ (floats : Floats) (p : ℕ) (m : Message) (jid : Uuid) (j : Job) (r : Redis) (db : Db)
    (n : ℕ) where
  pub process_message-calm :
      (chosen : Candidate)
      → m.job_id ≡ some jid
      → query_row (job_with_id jid) db.jobs ≡ some j
      → job_status_eq j.status queued ≡ true
      → select_least_loaded floats
          (map to_candidate (select (is_candidate m.required_capabilities) db.workers))
        ≡ some chosen
      → count (assignable chosen.id chosen.epoch) db.workers ≡ 1
      → count (is_queued_at j.id j.created_at) db.jobs ≡ 1
      → is_some (query_row (job_at j.id j.created_at) db.jobs) ≡ true
      → process_message floats (p, m) (calm r db n) ≡ (
        ok tt,
        calm
            (acknowledged p m.number (mirrored chosen j r))
            (both_changed j.id j.created_at chosen.id chosen.epoch db)
            (n + 1 + 1 + 1 + 1 + 1 + 1 + 1 + 1),
      )
  unfolding process_message process_job match_job match_candidates assign_to settle after_assignment
      get list_ready_candidates set_state ack statement command attempt ◌>>=◌ and_then pure
  process_message-calm chosen names found waiting picked one_worker one_job there =
      rw
        (
          names,
          found,
          waiting,
          picked,
          assign_job-calm j.id j.created_at chosen.id chosen.epoch r db (n + 1 + 1) one_worker
              one_job there,
        )
        refl
