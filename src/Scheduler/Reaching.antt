-- ===== src/Scheduler/Reaching.antt =====
-- From a stream entry to the agent that executes its job: internal/scheduler/loop.go,
-- internal/grpcserver/heartbeat.go and cmd/worker-agent/main.go together, when no call fails.
use fleetforge.Base.{
  ℕ, ◌≢◌, [], ◌∷◌, ◌+◌, ◌≡◌, refl, sym, ap, subst, ◌∙◌, Bool, true, false, not, ◌==◌, Option, none,
  some, List, arith, All, mem_select, mem_map, select-nonempty, query_row-mem, query_row_sound,
  select_sound, map, select, query_row, found-count, count-nonzero,
}
use mathlib.Core.List.{Memᴰ}
use fleetforge.Schema.{Uuid, Instant, Worker, Job, queued, busy, job_status_eq, Db}
use fleetforge.Statements.{job_with_id, job_at}
use fleetforge.World.{World, Redis, Result, ok, Message}
use fleetforge.Consistency.{IsConsistent}
use fleetforge.WorkerStore.Assign.{Candidate, is_candidate, to_candidate, assigned_to}
use fleetforge.WorkerStore.Assigning.{both_changed}
use fleetforge.Base.Int.{sub_ℕ}
use fleetforge.RedisStore.Cache.{CachedState, write_key, parse_bool, read_hash}
use fleetforge.RedisStore.Queue.{remove_pending}
use fleetforge.Scheduler.Select.{Floats, select_least_loaded}
use fleetforge.Scheduler.Loop.{process_message}
use fleetforge.Scheduler.Matching.{
  calm, select_least_loaded-mem, candidates_have_slots, one_queued, one_assignable, assigned_row,
  mirrored, acknowledged, process_message-calm,
}
use fleetforge.Grpc.Proto.{HeartbeatResponse}
use fleetforge.Grpc.Heartbeat.{handle_heartbeat}
use fleetforge.Agent.{AgentState, heartbeat, receive}
use fleetforge.Agent.HandOver.{IsAssignedTo, assignment_of, handle_heartbeat-hands_over}

-- The world after the entry: the worker was a candidate, it and the job are assigned to each other in
-- the database and in the cache, and the entry is acknowledged.
pub record IsMatched (p : ℕ) (m : Message) (j : Job) (v : Worker) (db : Db) (after : World)
    : Type 0 where
  pub listed : Memᴰ v db.workers
  pub fits : is_candidate m.required_capabilities v ≡ true
  pub stored : after.db ≡ both_changed j.id j.created_at v.id v.epoch db
  pub there : IsAssignedTo after v.id v.epoch (assigned_to v.id v.epoch j)
  pub acked :
      All (λ (x : Message). not (x.number == m.number) ≡ true) (after.redis.streams p).pending

-- The next heartbeat of the worker's agent is answered, and the agent starts the job.
abbrev pub StartsOnBeat : Instant → ℕ → Worker → Job → AgentState → World → Type 0
StartsOnBeat now timeout_seconds v j a after =
    (resp : HeartbeatResponse) × ((handle_heartbeat now timeout_seconds (heartbeat v.id v.epoch a)
        after).0
      ≡ ok resp)
    × ((receive resp a).1 ≡ some (assignment_of v.epoch (assigned_to v.id v.epoch j)))
    × ((receive resp a).0.current_job_id ≡ some j.id)

map-nonempty : {A B : Type 0} (f : A → B) (xs : List A) → xs ≢ [] → map f xs ≢ []
map-nonempty f [] some_one h = some_one refl
map-nonempty f (x ∷ xs) some_one h = cc

-- What the cache reads of the worker afterwards.
abbrev cached_as : Worker → Job → Option Bool → CachedState
cached_as v j drain = record {
  epoch = v.epoch;
  status = some busy;
  current_job_id = some j.id;
  available_capacity = sub_ℕ v.available_capacity 1;
  last_pg_flush_unix = 0;
  drain_requested = parse_bool drain;
}

written :
    (v : Worker) (j : Job) (r : Redis)
    → read_hash
        ((mirrored (to_candidate v) j r).states v.id).state
        ((mirrored (to_candidate v) j r).states v.id).drain_requested
      ≡ some (cached_as v j (r.states v.id).drain_requested)
unfolding write_key read_hash
written v j r = let own : (v.id == v.id) ≡ true = ground arith in rw own refl

module _ (floats : Floats) (p : ℕ) (m : Message) (jid : Uuid) (j : Job) (r : Redis) (db : Db)
    (n : ℕ) where
  cleared :
      (r : Redis)
      → All
          (λ (x : Message). not (x.number == m.number) ≡ true)
          ((acknowledged p m.number r).streams p).pending
  unfolding write_key remove_pending
  cleared r = let own : (p == p) ≡ true = ground arith in rw own (select_sound _ _)

  id_of : query_row (job_with_id jid) db.jobs ≡ some j → j.id ≡ jid
  id_of found = let hit = query_row_sound (job_with_id jid) db.jobs found in ground arith

  IsMatched-with :
      (v : Worker)
      → IsConsistent db
      → m.job_id ≡ some jid
      → query_row (job_with_id jid) db.jobs ≡ some j
      → j.status ≡ queued
      → Memᴰ v db.workers
      → is_candidate m.required_capabilities v ≡ true
      → select_least_loaded floats
          (map to_candidate (select (is_candidate m.required_capabilities) db.workers))
        ≡ some (to_candidate v)
      → IsMatched p m j v db (process_message floats (p, m) (calm r db n)).1
        × ((process_message floats (p, m) (calm r db n)).1.fails ≡ (λ k. false))
  unfolding assigned_to
  IsMatched-with v c names found waiting listed fits picked =
      let is_waiting : job_status_eq j.status queued ≡ true = rw waiting refl in
      let stored = query_row-mem (job_with_id jid) db.jobs found in
      let own : job_at j.id j.created_at j ≡ true = ground arith in
      let runs =
        process_message-calm floats p m jid j r db n (to_candidate v) names found is_waiting picked
          (one_assignable v m.required_capabilities db.workers c.ids_differ listed fits)
          (one_queued j db.jobs c.keys_differ stored (ground arith))
          (found-count (job_at j.id j.created_at) (job_at j.id j.created_at) db.jobs (λ i at. at)
            (count-nonzero (job_at j.id j.created_at) own db.jobs stored)) in
      subst
        (λ (x : Result (Unit {0}) × World). IsMatched p m j v db x.1 × (x.1.fails ≡ (λ k. false)))
        (sym runs)
        (
          record {
            listed = listed;
            fits = fits;
            stored = refl;
            there = record {
              entry = cached_as v j (r.states v.id).drain_requested;
              cached = written v j r;
              epoch = refl;
              is_busy = refl;
              jid = jid;
              named = ap some (id_of found);
              stored = assigned_row jid j v.id v.epoch db.jobs found is_waiting;
              is_assigned = refl;
            };
            acked = cleared r;
          },
          refl,
        )

  -- From a consistent database, if no call fails, the entry names a job that the loop finds
  -- QUEUED, some READY worker has spare capacity and the required capabilities, and every agent is
  -- idle and not draining, then processing the entry acknowledges it and gives the job to a worker
  -- that was such a candidate, in the database and in the cache, and the next heartbeat of that
  -- worker's agent is answered and the agent starts the job.
  pub process_message-IsMatched :
      (now : Instant) (timeout_seconds : ℕ) (agents : Uuid → AgentState) (spare : Worker)
      → IsConsistent db
      → m.job_id ≡ some jid
      → query_row (job_with_id jid) db.jobs ≡ some j
      → j.status ≡ queued
      → Memᴰ spare db.workers
      → is_candidate m.required_capabilities spare ≡ true
      → ((u : Uuid) → (agents u).current_job_id ≡ none)
      → ((u : Uuid) → (agents u).draining ≡ false)
      → (v : Worker) × IsMatched p m j v db (process_message floats (p, m) (calm r db n)).1
        × StartsOnBeat now timeout_seconds v j
            (agents v.id)
            (process_message floats (p, m) (calm r db n)).1
  unfolding assigned_to
  process_message-IsMatched now timeout_seconds agents spare c names found waiting listed fits idle
        active =
      let p_fits = is_candidate m.required_capabilities in
      let candidates : List Candidate = map to_candidate (select p_fits db.workers) in
      let (d, picked, is_one) =
        select_least_loaded-mem floats candidates
          (map-nonempty to_candidate _ (select-nonempty p_fits fits db.workers listed))
          (candidates_have_slots db.workers c.workers_sound p_fits) in
      let (v, selected, is_d) = mem_map to_candidate (select p_fits db.workers) is_one in
      let (stored, matches) = mem_select p_fits db.workers selected in
      let (matched, calm_after) =
        IsMatched-with v c names found waiting stored matches (picked ∙ ap some (sym is_d)) in
      let after : World = (process_message floats (p, m) (calm r db n)).1 in
      (
        v,
        matched,
        handle_heartbeat-hands_over now timeout_seconds v.id v.epoch (assigned_to v.id v.epoch j)
            after (agents v.id) matched.there (ap (λ (f : ℕ → Bool). f after.calls) calm_after)
            (ap (λ (f : ℕ → Bool). f (after.calls + 1)) calm_after) (idle v.id) (active v.id),
      )
