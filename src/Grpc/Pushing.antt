-- ===== src/Grpc/Pushing.antt =====
-- Which assignments a heartbeat hands over, internal/grpcserver/heartbeat.go.
use fleetforge.Base.{
  ℕ, ◌≡◌, refl, sym, ap, subst, ◌∙◌, Bool, Option, none, some, arith, query_row, Bool-cases, inl,
  inr,
}
use fleetforge.Schema.{Uuid, Instant, WorkerStatus, busy, Job, Db, assigned, is_live}
use fleetforge.Statements.{job_with_id}
use fleetforge.World.{World, Result, ok, err, pure, throw, attempt, command}
use fleetforge.RedisStore.Cache.{CachedState, read_hash, get_state}
use fleetforge.Grpc.Pending.{pushable_pending, accepted_pending}
use fleetforge.Effects.Values.{bind_ok, ok_eq, attempted, attempted_world}
use fleetforge.Grpc.Proto.{HeartbeatRequest, HeartbeatResponse, JobAssignment}
use fleetforge.Grpc.Heartbeat.{
  Known, known_from_db, fall_back, known_from_cache, heartbeat_of, handle_heartbeat,
}

-- The cache names the job for the worker, which is BUSY there under the epoch of its heartbeat and
-- reports no job itself; and the job is ASSIGNED.
pub record IsPending (w : World) (wid : Uuid) (req : HeartbeatRequest) (x : JobAssignment)
    : Type 0 where
  pub entry : CachedState
  pub job : Job
  pub idle : req.current_job_id ≡ none
  pub cached :
      read_hash (w.redis.states wid).state (w.redis.states wid).drain_requested ≡ some entry
  pub is_busy : entry.status ≡ some busy
  pub named :
      (jid : Uuid) × (entry.current_job_id ≡ some jid)
      × (query_row (job_with_id jid) w.db.jobs ≡ some job)
  pub is_assigned : job.status ≡ assigned
  pub job_id : x.job_id ≡ job.id
  pub epochs : (x.assignment_epoch ≡ req.epoch) × (entry.epoch ≡ req.epoch)

row_uncached :
    (r : Result (ℕ × WorkerStatus × Bool)) (v : World) (known : Known)
    → (known_from_db r v).0 ≡ ok known
    → known.cached ≡ none
unfolding known_from_db throw pure
row_uncached (err e) v known h = absurd (cc)
row_uncached (ok (e, s, d)) v known h = elim (Bool-cases (is_live s)) [
  | inl t ↦ sym (ap (λ (k : Known). k.cached) (ok_eq _ _ (rw t at h)))
  | inr f ↦ absurd (cc (rw f at h))
]

fall_back_uncached :
    (wid : Uuid) (v : World) (known : Known) → (fall_back wid v).0 ≡ ok known → known.cached ≡ none
unfolding fall_back
fall_back_uncached wid v known h =
    let (row, is_row, h1) = bind_ok _ _ v known h in row_uncached row _ known h1

from_cache :
    (wid : Uuid) (r : Result (Option CachedState)) (v : World) (known : Known) (c : CachedState)
    → (known_from_cache wid r v).0 ≡ ok known
    → known.cached ≡ some c
    → (r ≡ ok (some c)) × (known.epoch ≡ c.epoch) × ((known_from_cache wid r v).1 ≡ v)
unfolding known_from_cache pure
from_cache wid (ok (some d)) v known c h is_c =
    let same = ok_eq _ _ h in
    let entries : ◌≡◌ {A = Option CachedState} (some d) (some c) =
      ap (λ (k : Known). k.cached) same ∙ is_c in
    let entry : d ≡ c = cc in
    (
      ap (λ (o : Option CachedState). ok o) entries,
      sym (ap (λ (k : Known). k.epoch) same) ∙ ap (λ (d : CachedState). d.epoch) entry,
      refl,
    )
from_cache wid (ok none) v known c h is_c =
    absurd (let gone = fall_back_uncached wid v known h in cc)
from_cache wid (err e) v known c h is_c = absurd (let gone = fall_back_uncached wid v known h in cc)

got_state :
    (wid : Uuid) (w : World) (c : CachedState)
    → (get_state wid w).0 ≡ ok (some c)
    → read_hash (w.redis.states wid).state (w.redis.states wid).drain_requested ≡ some c
unfolding get_state command
got_state wid w c h = ground arith

got_db : (wid : Uuid) (w : World) → (get_state wid w).1.db ≡ w.db
unfolding get_state command
got_db wid w = ground arith

-- A response to a heartbeat that carries an assignment goes to a worker that reports no job, which
-- is BUSY in the cache with that job under the epoch of the heartbeat, and the job is ASSIGNED in
-- the database; the assignment carries that epoch.
pub handle_heartbeat-IsPending :
    (now : Instant) (timeout_seconds : ℕ) (wid : Uuid) (req : HeartbeatRequest) (w : World)
    (resp : HeartbeatResponse) (x : JobAssignment)
    → req.worker_id ≡ some wid
    → (handle_heartbeat now timeout_seconds req w).0 ≡ ok resp
    → resp.assignment ≡ some x
    → IsPending w wid req x
unfolding handle_heartbeat heartbeat_of
handle_heartbeat-IsPending now timeout_seconds wid req w resp x names h pushed =
    let h' : (heartbeat_of now timeout_seconds req (some wid) w).0 ≡ ok resp =
      subst (λ o. (heartbeat_of now timeout_seconds req o w).0 ≡ ok resp) names h in
    let (cached, is_cached, h1) = bind_ok _ _ w resp h' in
    let (known, is_known, h2) = bind_ok _ _ _ resp h1 in
    let (pending, epochs) = accepted_pending now timeout_seconds wid req known _ resp h2 in
    let named =
      pushable_pending known.cached req.current_job_id known.epoch _ x (pending ∙ ap ok pushed) in
    let (is_entry, same_epoch, kept) =
      from_cache wid cached (attempt (get_state wid) w).1 known named.entry is_known
        named.is_entry in
    let same_db =
      ap (λ (v : World). v.db) (kept ∙ attempted_world (get_state wid) w) ∙ got_db wid w in
    record {
      entry = named.entry;
      job = named.job;
      idle = named.silent;
      cached =
          got_state wid w named.entry (attempted (get_state wid) w cached is_cached ∙ is_entry);
      is_busy = named.busy_entry;
      named = (
        named.jid,
        named.names,
        subst (λ (db : Db). query_row (job_with_id named.jid) db.jobs ≡ some named.job) same_db
            named.stored,
      );
      is_assigned = named.assigned_job;
      job_id = named.same_id;
      epochs = (named.same_epoch ∙ sym epochs, sym same_epoch ∙ sym epochs);
    }
