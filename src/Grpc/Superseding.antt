-- ===== src/Grpc/Superseding.antt =====
-- After a registration the worker is known under its new epoch only: internal/grpcserver/register.go
-- and heartbeat.go.
use fleetforge.Base.{
  ℕ, ◌≡◌, ◌≢◌, refl, sym, ap, subst, ◌∙◌, false, none, some, arith, Bool-cases, inl, inr,
}
use fleetforge.Base.Int.{pos}
use fleetforge.Schema.{Uuid, Instant, ready}
use fleetforge.World.{
  World, WorkerState, Result, ok, err, internal, Action, pure, throw, attempt, command, and_then,
  ◌>>=◌, ◌>>◌,
}
use fleetforge.Consistency.{IsConsistent}
use fleetforge.Effects.Values.{ok_eq}
use fleetforge.WorkerStore.Register.{
  RegisterWorkerParams, RegisteredWorker, default_slots, register,
}
use fleetforge.WorkerStore.Superseding.{register-NoneReapable}
use fleetforge.RedisStore.Cache.{CachedState, write_key, read_hash, set_state}
use fleetforge.Scheduler.Loop.{ignore}
use fleetforge.Grpc.Proto.{RegisterWorkerResponse, HeartbeatRequest}
use fleetforge.Grpc.Register.{is_invalid, register_worker}
use fleetforge.Grpc.Report.{or_error}
use fleetforge.Grpc.Heartbeat.{handle_heartbeat}
use fleetforge.Grpc.Liveness.{IsUnknown, Refused, handle_heartbeat-Refused}

-- What the cache reads of a worker after a SetState that went through.
pub cached_epoch :
    (wid : Uuid) (s : WorkerState) (w : World) (c : CachedState)
    → w.fails w.calls ≡ false
    → read_hash
        ((set_state wid s w).1.redis.states wid).state
        ((set_state wid s w).1.redis.states wid).drain_requested
      ≡ some c
    → c.epoch ≡ s.epoch
unfolding set_state command write_key read_hash
cached_epoch wid s w c runs h = ground arith

pub set_state_db : (wid : Uuid) (s : WorkerState) (w : World) → (set_state wid s w).1.db ≡ w.db
unfolding set_state command
set_state_db wid s w = ground arith

module _ (interval_seconds timeout_seconds : ℕ) (new_id : Uuid) (now : Instant)
    (p : RegisterWorkerParams) where
  abbrev pub cached_at : RegisteredWorker → WorkerState
  cached_at r = record {
    epoch = r.epoch;
    status = ready;
    current_job_id = none;
    available_capacity = pos (default_slots p.capacity_slots);
    last_pg_flush_unix = 0;
  }

  abbrev pub answer : RegisteredWorker → RegisterWorkerResponse
  answer r = record {
    worker_id = r.id;
    epoch = r.epoch;
    heartbeat_interval_seconds = interval_seconds;
    heartbeat_timeout_seconds = timeout_seconds;
  }

  abbrev rest : Result RegisteredWorker → Action RegisterWorkerResponse
  rest r =
      or_error r (throw internal) >>= λ a. ignore (set_state a.id (cached_at a)) >> pure (answer a)

  answered :
      (r : Result RegisteredWorker) (v : World) (resp : RegisterWorkerResponse)
      → (rest r v).0 ≡ ok resp
      → (a : RegisteredWorker) × (r ≡ ok a)
        × (resp ≡ answer a)
        × ((rest r v).1 ≡ (set_state a.id (cached_at a) v).1)
  unfolding ◌>>=◌ and_then attempt pure throw
  answered (ok a) v resp h = (a, refl, sym (ok_eq _ _ h), refl)
  answered (err e) v resp h = absurd (cc)

  -- What a registration that answered did.
  pub registered_as :
      (w : World) (resp : RegisterWorkerResponse)
      → (register_worker interval_seconds timeout_seconds new_id now p w).0 ≡ ok resp
      → (a : RegisteredWorker) × ((register new_id now p w).0 ≡ ok a)
        × (resp ≡ answer a)
        × ((register_worker interval_seconds timeout_seconds new_id now p w).1
            ≡ (set_state a.id (cached_at a) (register new_id now p w).1).1)
  unfolding register_worker throw ◌>>=◌ and_then attempt
  registered_as w resp h = elim (Bool-cases (is_invalid p)) [
    | inl bad ↦ absurd (cc (rw bad at h))
    | inr good ↦
        rw good
          (answered (register new_id now p w).0 (register new_id now p w).1 resp (rw good at h))
  ]

  -- From a consistent database, if RegisterWorker answers and its call to Redis does not fail,
  -- then a heartbeat of the worker that it names under any other epoch than the one that it hands
  -- out gets no response and writes nothing.
  pub register_worker-Refused :
      (w : World) (resp : RegisterWorkerResponse) (beat : Instant) (req : HeartbeatRequest)
      → IsConsistent w.db
      → (register_worker interval_seconds timeout_seconds new_id now p w).0 ≡ ok resp
      → (register new_id now p w).1.fails (register new_id now p w).1.calls ≡ false
      → req.worker_id ≡ some resp.worker_id
      → req.epoch ≢ resp.epoch
      → Refused (register_worker interval_seconds timeout_seconds new_id now p w).1 (
          handle_heartbeat beat timeout_seconds req
            (register_worker interval_seconds timeout_seconds new_id now p w).1)
  register_worker-Refused w resp beat req c done runs names other =
      let (a, is_a, same, world) = registered_as w resp done in
      let after : World = (set_state a.id (cached_at a) (register new_id now p w).1).1 in
      let differs : req.epoch ≢ a.epoch =
        subst (λ (x : RegisterWorkerResponse). req.epoch ≢ x.epoch) same other in
      let wid : req.worker_id ≡ some a.id =
        names ∙ ap (λ (x : RegisterWorkerResponse). some x.worker_id) same in
      let unknown : IsUnknown a.id req.epoch after = (
        λ k h is_e.
            differs
              (sym is_e ∙ cached_epoch a.id (cached_at a) (register new_id now p w).1 k runs h),
        rw (set_state_db a.id (cached_at a) (register new_id now p w).1)
            (register-NoneReapable new_id now p w a req.epoch c is_a differs),
      ) in
      subst (λ (x : World). Refused x (handle_heartbeat beat timeout_seconds req x)) (sym world)
        (handle_heartbeat-Refused beat timeout_seconds a.id req after wid unknown)
