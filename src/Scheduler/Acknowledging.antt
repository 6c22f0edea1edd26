-- ===== src/Scheduler/Acknowledging.antt =====
-- When the matching loop acknowledges a stream entry, internal/scheduler/loop.go.
use fleetforge.Base.{
  ℕ, ◌≡◌, ◌⊎◌, inl, inr, refl, sym, ap, subst, ◌∙◌, Bool, true, false, not, ◌==◌, Option, none,
  some, String, List, [], ◌∷◌, arith, query_row, update, Bool-cases,
}
use fleetforge.Schema.{Uuid, Instant, Job, queued, job_status_eq, Db}
use fleetforge.Statements.{job_with_id}
use fleetforge.World.{
  World, Message, Result, ok, err, job_not_found, job_assign_race_lost, pure, attempt, statement,
  and_then, ◌>>=◌,
}
use fleetforge.Effects.{Keeps-bind, Keeps-attempt, Keeps-command, Keeps-pure}
use fleetforge.Effects.Streams.{
  KeepsStreams, KeepsStreams-statement, KeepsStreams-pure, KeepsStreams-throw, KeepsStreams-if,
  KeepsStreams-attempt, KeepsStreams-begin_func, KeepsStreams-bind,
}
use fleetforge.Consistency.{IsConsistent}
use fleetforge.WorkerStore.Assign.{
  Candidate, is_queued_at, assigned_to, take_worker, take_job, assign_body, forgive_race,
  assign_job, list_ready_candidates,
}
use fleetforge.WorkerStore.Assigning.{assign_job-atomic}
use fleetforge.JobStore.Create.{get, found_job}
use fleetforge.RedisStore.Cache.{set_state}
use fleetforge.RedisStore.Queue.{ack}
use fleetforge.Scheduler.Select.{Floats, select_least_loaded}
use fleetforge.Scheduler.Loop.{
  ignore, after_assignment, settle, assign_to, match_candidates, match_job, process_job,
  process_message,
}

forgive_race_keeps : (r : Result Bool) → KeepsStreams (forgive_race r)
unfolding forgive_race
forgive_race_keeps (ok b) = KeepsStreams-pure b
forgive_race_keeps (err job_assign_race_lost) = KeepsStreams-pure false
forgive_race_keeps (err e) = KeepsStreams-throw e

assign_job_keeps :
    (jid : Uuid) (created : Instant) (wid : Uuid) (e : ℕ)
    → KeepsStreams (assign_job jid created wid e)
unfolding assign_job assign_body
assign_job_keeps jid created wid e =
    KeepsStreams-bind
      (KeepsStreams-attempt (
        KeepsStreams-begin_func (
          KeepsStreams-bind (KeepsStreams-statement (take_worker jid created wid e)) (λ taken.
            KeepsStreams-if _ (KeepsStreams-pure false) (
              KeepsStreams-bind (KeepsStreams-statement (take_job jid created wid e)) (λ moved.
                KeepsStreams-if _ (KeepsStreams-throw job_assign_race_lost)
                  (KeepsStreams-pure true)))))))
      forgive_race_keeps

-- The job that the loop finds under the id, if any, is not QUEUED.
abbrev pub settled_in : Uuid → List Job → Bool
settled_in jid js = elim (query_row (job_with_id jid) js) [
  | none ↦ true
  | some j ↦ not (job_status_eq j.status queued)
]

assigned_settled :
    (jid : Uuid) (j : Job) (wid : Uuid) (e : ℕ) (js : List Job)
    → query_row (job_with_id jid) js ≡ some j
    → job_status_eq j.status queued ≡ true
    → settled_in jid (update (is_queued_at j.id j.created_at) (assigned_to wid e) js) ≡ true
unfolding query_row update assigned_to
assigned_settled jid j wid e [] found waiting = absurd (cc)
assigned_settled jid j wid e (x ∷ xs) found waiting = elim (Bool-cases (x.id == jid)) [
  | inl t ↦
      let same : x ≡ j = ground arith in
      let hit : is_queued_at j.id j.created_at x ≡ true =
        subst (λ i. is_queued_at j.id j.created_at i ≡ true) (sym same) (ground arith) in
      rw (hit, t, settled_in) refl
  | inr f ↦
      let rest = assigned_settled jid j wid e xs (ground arith) waiting in
      elim (Bool-cases (is_queued_at j.id j.created_at x)) [
        | inl hit ↦ rw (hit, f, settled_in) rest
        | inr miss ↦ rw (miss, f, settled_in) rest
      ]
]

SettledInDb : Uuid → Db → Type 0
SettledInDb jid db = settled_in jid db.jobs ≡ true

acknowledge :
    (jid : Uuid) (p n : ℕ) (w : World)
    → SettledInDb jid w.db
    → SettledInDb jid (ignore (ack p n) w).1.db
unfolding ack
acknowledge jid p n w h =
    (Keeps-bind {I = SettledInDb jid} (Keeps-attempt (Keeps-command _)) (λ r. Keeps-pure tt)).holds
      w h

-- What became of the entry for a job: either no stream changed, or the job is not waiting.
abbrev pub IsHandled : Uuid → World → World → Type 0
IsHandled jid before after =
    (after.redis.streams ≡ before.redis.streams) ⊎ (settled_in jid after.db.jobs ≡ true)

module _ (jid : Uuid) (p n : ℕ) (before : World) where
  settle_handles :
      (j : Job) (chosen : Candidate) (r : Result Bool) (v : World)
      → v.redis.streams ≡ before.redis.streams
      → (r ≡ ok true → settled_in jid v.db.jobs ≡ true)
      → IsHandled jid before (settle p n j chosen r v).1
  unfolding settle pure after_assignment set_state ack SettledInDb
  settle_handles j chosen (ok true) v kept done = inr (
      (Keeps-bind {I = SettledInDb jid}
          (Keeps-bind (Keeps-attempt (Keeps-command _)) (λ r. Keeps-pure tt))
          (λ _. Keeps-bind (Keeps-attempt (Keeps-command _)) (λ r. Keeps-pure tt))).holds
        v (done refl))
  settle_handles j chosen (ok false) v kept done = inl kept
  settle_handles j chosen (err e) v kept done = inl kept

  assign_handles :
      (floats : Floats) (j : Job) (o : Option Candidate) (v : World)
      → IsConsistent v.db
      → v.redis.streams ≡ before.redis.streams
      → query_row (job_with_id jid) v.db.jobs ≡ some j
      → job_status_eq j.status queued ≡ true
      → IsHandled jid before (assign_to floats p n j o v).1
  unfolding assign_to ◌>>=◌ and_then attempt pure
  assign_handles floats j none v c kept found waiting = inl kept
  assign_handles floats j (some chosen) v c kept found waiting =
      let assignment = assign_job j.id j.created_at chosen.id chosen.epoch in
      settle_handles j chosen (assignment v).0 (assignment v).1
        ((assign_job_keeps j.id j.created_at chosen.id chosen.epoch).same v ∙ kept)
        (λ won. elim (assign_job-atomic j.id j.created_at chosen.id chosen.epoch v c.ids_differ) [
          | inl (same, a) ↦
              rw (a.2) (assigned_settled jid j chosen.id chosen.epoch v.db.jobs found waiting)
          | inr (lost, left) ↦ absurd (lost won)
        ])

  candidates-IsHandled :
      (floats : Floats) (j : Job) (r : Result (List Candidate)) (v : World)
      → IsConsistent v.db
      → v.redis.streams ≡ before.redis.streams
      → query_row (job_with_id jid) v.db.jobs ≡ some j
      → job_status_eq j.status queued ≡ true
      → IsHandled jid before (match_candidates floats p n j r v).1
  unfolding match_candidates pure
  candidates-IsHandled floats j (err e) v c kept found waiting = inl kept
  candidates-IsHandled floats j (ok cs) v c kept found waiting =
      assign_handles floats j (select_least_loaded floats cs) v c kept found waiting

candidates_keep_db :
    (required : List String) (w : World) → (list_ready_candidates required w).1.db ≡ w.db
unfolding list_ready_candidates statement
candidates_keep_db required w = ground arith

module _ (jid : Uuid) (p : ℕ) (m : Message) (before : World) (floats : Floats) where
  job-IsHandled :
      (r : Result Job) (v : World)
      → IsConsistent v.db
      → v.redis.streams ≡ before.redis.streams
      → (r ≡ err job_not_found → query_row (job_with_id jid) v.db.jobs ≡ none)
      → ((j : Job) → r ≡ ok j → query_row (job_with_id jid) v.db.jobs ≡ some j)
      → IsHandled jid before (match_job floats p m r v).1
  unfolding match_job ◌>>=◌ and_then attempt pure SettledInDb list_ready_candidates
  job-IsHandled (err job_not_found) v c kept missing found =
      inr (acknowledge jid p m.number v (rw (missing refl, settled_in) refl))
  job-IsHandled (err e) v c kept missing found = inl kept
  job-IsHandled (ok j) v c kept missing found = elim (Bool-cases (job_status_eq j.status queued)) [
    | inl waiting ↦
        let listing = list_ready_candidates m.required_capabilities in
        let same : (listing v).1.db ≡ v.db = candidates_keep_db m.required_capabilities v in
        rw waiting (
          candidates-IsHandled jid p m.number before floats j (listing v).0 (listing v).1
            (subst IsConsistent (sym same) c) ((KeepsStreams-statement _).same v ∙ kept)
            (ap (λ (db : Db). query_row (job_with_id jid) db.jobs) same ∙ found j refl) waiting)
    | inr over ↦
        rw over (inr (acknowledge jid p m.number v (rw (found j refl, settled_in, over) refl)))
  ]

got :
    (jid : Uuid) (w : World)
    → ((get jid w).0 ≡ err job_not_found → query_row (job_with_id jid) w.db.jobs ≡ none)
      × ((j : Job) → (get jid w).0 ≡ ok j → query_row (job_with_id jid) w.db.jobs ≡ some j)
      × ((get jid w).1.db ≡ w.db)
unfolding get statement
got jid w = (
  λ h. lost (query_row (job_with_id jid) w.db.jobs) (ground arith),
  λ j h. here j (query_row (job_with_id jid) w.db.jobs) (ground arith),
  ground arith,
)
  where
    lost : (o : Option Job) → found_job o ≡ err job_not_found → o ≡ none
    lost none h = refl
    lost (some j) h = absurd (cc)

    here : (j : Job) (o : Option Job) → found_job o ≡ ok j → o ≡ some j
    here j none h = absurd (cc)
    here j (some i) h = ground arith

get_keeps : (jid : Uuid) → KeepsStreams (get jid)
unfolding get
get_keeps jid = KeepsStreams-statement _

-- In a consistent database, processing an entry that names a job leaves every stream as it was
-- unless the job that the loop finds under the id is gone or no longer QUEUED afterwards.
pub process_message-IsHandled :
    (floats : Floats) (p : ℕ) (m : Message) (jid : Uuid) (w : World)
    → m.job_id ≡ some jid
    → IsConsistent w.db
    → IsHandled jid w (process_message floats (p, m) w).1
unfolding process_message process_job ◌>>=◌ and_then attempt match_job
process_message-IsHandled floats p m jid w names c =
    let (lost, found, same) = got jid w in
    let rows : query_row (job_with_id jid) (get jid w).1.db.jobs
        ≡ query_row (job_with_id jid) w.db.jobs =
      ap (λ (db : Db). query_row (job_with_id jid) db.jobs) same in
    let handled =
      job-IsHandled jid p m w floats (get jid w).0 (get jid w).1 (subst IsConsistent (sym same) c)
        ((get_keeps jid).same w) (λ h. rows ∙ lost h) (λ j h. rows ∙ found j h) in
    rw names handled
