-- ===== src/Agent/FirstBeat.antt =====
-- The first heartbeat of an agent that registered: cmd/worker-agent/main.go with
-- internal/grpcserver/register.go and heartbeat.go.
use fleetforge.Base.{
  ℕ, ◌+◌, ◌≡◌, refl, sym, ap, subst, Bool, true, false, ◌==◌, Option, none, some, arith, ◌∙◌, List,
  All-mem, query_row, query_row-mem, query_row_sound, Option-cases, inl, inr,
}
use fleetforge.Base.Int.{ℤ, pos}
use fleetforge.Schema.{Uuid, Instant, Worker, Db}
use fleetforge.World.{World, WorkerState, ok, pure, command}
use fleetforge.Effects.Values.{
  Returns, Anything, Returns-bind, Returns-run, Returns-pure, Returns-attempt, Returns-ignore,
}
use fleetforge.WorkerStore.Register.{
  RegisterWorkerParams, RegisteredWorker, default_slots, register,
}
use fleetforge.RedisStore.Cache.{CachedState, write_key, parse_bool, read_hash, set_state}
use fleetforge.Grpc.Proto.{RegisterWorkerResponse, HeartbeatRequest, HeartbeatResponse}
use fleetforge.Grpc.Register.{register_worker}
use fleetforge.Grpc.Heartbeat.{
  Known, known_from_cache, pending_assignment, accept, heartbeat_of, handle_heartbeat,
}
use fleetforge.WorkerStore.Superseding.{IsFresh, IsCurrent, register-IsCurrent}
use fleetforge.Consistency.{IsConsistent}
use fleetforge.Statements.{has_id}
use fleetforge.Grpc.Superseding.{cached_at, answer, registered_as, set_state_db}
use fleetforge.Agent.{AgentState, initial_state, heartbeat}
use fleetforge.Agent.HandOver.{confirm-Returns, flush-Returns, read_state}
use fleetforge.Agent.Startup.{StartedAgent, to_int32, started_agent}

-- The cache entry that the registration wrote.
abbrev entry_of : WorkerState → Option Bool → CachedState
entry_of s drain = record {
  epoch = s.epoch;
  status = some s.status;
  current_job_id = s.current_job_id;
  available_capacity = s.available_capacity;
  last_pg_flush_unix = s.last_pg_flush_unix;
  drain_requested = parse_bool drain;
}

written_entry :
    (wid : Uuid) (s : WorkerState) (w : World)
    → w.fails w.calls ≡ false
    → read_hash
        ((set_state wid s w).1.redis.states wid).state
        ((set_state wid s w).1.redis.states wid).drain_requested
      ≡ some (entry_of s (w.redis.states wid).drain_requested)
unfolding set_state command write_key read_hash
written_entry wid s w runs = let own : (wid == wid) ≡ true = ground arith in rw (runs, own) refl

pending-Returns :
    (e : ℕ) (o : Option Uuid) (w : World) → Returns Anything (pending_assignment e o) w
unfolding pending_assignment
pending-Returns e none w = Returns-pure Anything none w tt
pending-Returns e (some jid) w =
    Returns-bind (Returns-attempt _ w) (λ r h. Returns-pure Anything _ _ tt)

-- The scheduler acknowledges the heartbeat and passes on whether the worker is to drain.
abbrev pub Acknowledges : Bool → HeartbeatResponse → Type 0
Acknowledges drain resp = (resp.acknowledged ≡ true) × (resp.drain_requested ≡ drain)

accept-Acknowledges :
    (now : Instant) (timeout_seconds : ℕ) (wid : Uuid) (req : HeartbeatRequest) (known : Known)
    (w : World)
    → req.epoch ≡ known.epoch
    → Returns (Acknowledges known.drain_requested) (accept now timeout_seconds wid req known) w
unfolding accept
accept-Acknowledges now timeout_seconds wid req known w same =
    let equal : (req.epoch == known.epoch) ≡ true = ground arith in
    rw equal (
      Returns-bind (pending-Returns _ _ w) (λ a h0.
        Returns-bind (confirm-Returns _ _ _ _ _) (λ u h1.
          Returns-bind (flush-Returns _ _ _ _ _ _ _) (λ n h2.
            Returns-bind (Returns-ignore _ _) (λ v h3.
              Returns-bind (Returns-ignore _ _) (λ v h4. Returns-pure _ _ _ (refl, refl)))))))

-- A heartbeat under the epoch of the cache is answered, whatever it reports.
cached-Acknowledges :
    (now : Instant) (timeout_seconds : ℕ) (wid : Uuid) (e : ℕ) (a : AgentState) (c : CachedState)
    (w : World)
    → read_hash (w.redis.states wid).state (w.redis.states wid).drain_requested ≡ some c
    → c.epoch ≡ e
    → w.fails w.calls ≡ false
    → Returns
        (Acknowledges c.drain_requested)
        (handle_heartbeat now timeout_seconds (heartbeat wid e a))
        w
unfolding handle_heartbeat heartbeat heartbeat_of known_from_cache pure
cached-Acknowledges now timeout_seconds wid e a c w cached same runs =
    Returns-run _ _ _ _ _ _
      (read_state wid w runs ∙ ap (λ o. (ok (ok o), record w { calls = w.calls + 1 })) cached)
      (Returns-run _ _ _ _ _ _ refl (
        accept-Acknowledges now timeout_seconds wid (heartbeat wid e a)
          (record { epoch = c.epoch; drain_requested = c.drain_requested; cached = some c }) _
          (sym same)))

-- The scheduler's tables, its cache and the agent agree on a worker that has registered.
pub record IsKnown (a : StartedAgent) (w : World) : Type 0 where
  pub entry : CachedState
  pub cached :
      read_hash (w.redis.states a.worker_id).state (w.redis.states a.worker_id).drain_requested
      ≡ some entry
  pub cached_epoch : entry.epoch ≡ a.epoch
  pub cached_capacity : entry.available_capacity ≡ a.state.available_capacity
  pub row : Worker
  pub stored : query_row (has_id a.worker_id) w.db.workers ≡ some row
  pub row_epoch : row.epoch ≡ a.epoch
  pub row_slots : row.capacity_slots ≡ a.capacity_slots
  pub row_capacity : pos row.available_capacity ≡ a.state.available_capacity

stored_row :
    (wid : Uuid) (e slots : ℕ) (ws : List Worker)
    → IsCurrent wid e slots ws
    → (u : Worker) × (query_row (has_id wid) ws ≡ some u) × IsFresh e slots u
stored_row wid e slots ws h = elim (Option-cases (query_row (has_id wid) ws)) [
  | inl missing ↦ absurd (let listed = h.listed in cc (rw missing at listed))
  | inr (u, found) ↦ (
    u,
    found,
    All-mem (λ u. has_id wid u ≡ true → IsFresh e slots u) ws h.fresh
        (query_row-mem (has_id wid) ws found) (query_row_sound (has_id wid) ws found),
  )
]

module _ (interval_seconds timeout_seconds : ℕ) (new_id : Uuid) (now : Instant)
    (p : RegisterWorkerParams) where
  abbrev entry_for : RegisteredWorker → WorkerState
  entry_for a = cached_at interval_seconds timeout_seconds new_id now p a

  IsKnown-after :
      (a : RegisteredWorker) (before : World) (slots : ℤ)
      → p.capacity_slots ≡ to_int32 slots
      → IsCurrent a.id a.epoch (default_slots p.capacity_slots) before.db.workers
      → before.fails before.calls ≡ false
      → IsKnown
          (started_agent (answer interval_seconds timeout_seconds new_id now p a) slots)
          (set_state a.id (entry_for a) before).1
  unfolding started_agent initial_state
  IsKnown-after a before slots sent current runs =
      let (u, found, fresh) =
        stored_row a.id a.epoch (default_slots p.capacity_slots) before.db.workers current in
      let (epoch, total, free) = fresh in
      let asked = ap default_slots sent in
      record {
        entry = entry_of (entry_for a) (before.redis.states a.id).drain_requested;
        cached = written_entry a.id (entry_for a) before runs;
        cached_epoch = refl;
        cached_capacity = ap pos asked;
        row = u;
        stored =
            subst (λ (db : Db). query_row (has_id a.id) db.workers ≡ some u)
              (sym (set_state_db a.id (entry_for a) before)) found;
        row_epoch = epoch;
        row_slots = total ∙ asked;
        row_capacity = ap pos (free ∙ asked);
      }

  -- From a consistent database, if RegisterWorker answers a request whose slots are the int32 of
  -- the configured ones and its call to Redis does not fail, then the row that the database has of
  -- the worker and its cache entry both have the epoch of the agent that starts with the answer,
  -- the row has the slots of the agent, and row and entry have its free slots; and at any later
  -- time at which the cache still has the worker under this epoch, with a job or without, and can
  -- be read, the agent's first heartbeat is acknowledged and answered with the drain request of
  -- the cache, whichever later calls fail.
  pub register_worker-IsKnown :
      (w : World) (resp : RegisterWorkerResponse) (slots : ℤ) (later : World) (c : CachedState)
      (beat : Instant)
      → IsConsistent w.db
      → p.capacity_slots ≡ to_int32 slots
      → (register_worker interval_seconds timeout_seconds new_id now p w).0 ≡ ok resp
      → (register new_id now p w).1.fails (register new_id now p w).1.calls ≡ false
      → read_hash
          (later.redis.states resp.worker_id).state
          (later.redis.states resp.worker_id).drain_requested
        ≡ some c
      → c.epoch ≡ resp.epoch
      → later.fails later.calls ≡ false
      → IsKnown
          (started_agent resp slots)
          (register_worker interval_seconds timeout_seconds new_id now p w).1
        × Returns
            (Acknowledges c.drain_requested)
            (handle_heartbeat beat timeout_seconds
              (heartbeat resp.worker_id resp.epoch (started_agent resp slots).state))
            later
  register_worker-IsKnown w resp slots later c beat consistent sent done runs cached same reads =
      let (a, is_a, is_answer, world) =
        registered_as interval_seconds timeout_seconds new_id now p w resp done in
      let here =
        IsKnown-after a (register new_id now p w).1 slots sent
          (register-IsCurrent new_id now p w a consistent is_a) runs in
      (
        subst
            (λ r.
              IsKnown (started_agent r slots)
                (register_worker interval_seconds timeout_seconds new_id now p w).1)
            (sym is_answer)
            (subst
              (IsKnown
                (started_agent (answer interval_seconds timeout_seconds new_id now p a) slots))
              (sym world) here),
        cached-Acknowledges beat timeout_seconds resp.worker_id resp.epoch
            (started_agent resp slots).state c later cached same reads,
      )
