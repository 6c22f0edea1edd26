-- ===== src/Grpc/Heartbeat.antt =====
-- handleHeartbeat, internal/grpcserver/heartbeat.go. One reading of the clock serves a heartbeat.
use fleetforge.Base.{
  ℕ, ◌+◌, ◌-◌, ◌*◌, ◌/◌, Bool, true, false, not, ◌||◌, Option, none, some, ◌==◌, leb, if◌then◌else◌,
}
use fleetforge.Schema.{
  Uuid, Instant, WorkerStatus, busy, worker_status_eq, is_live, Job, assigned, job_status_eq,
}
use fleetforge.World.{
  Result, ok, err, invalid_argument, not_found, aborted, Action, pure, throw, attempt, ◌>>=◌, ◌>>◌,
}
use fleetforge.WorkerStore.Liveness.{get_epoch_and_status, update_heartbeat}
use fleetforge.JobStore.Backoff.{second}
use fleetforge.JobStore.Create.{get}
use fleetforge.JobStore.Transitions.{mark_running}
use fleetforge.RedisStore.Cache.{CachedState, get_state, set_state, set_alive}
use fleetforge.Scheduler.Loop.{ignore}
use fleetforge.Grpc.Proto.{HeartbeatRequest, HeartbeatResponse, JobAssignment, worker_status_to_db}

-- pgFlushCoalesceInterval, in seconds.
abbrev pub coalesce_seconds : ℕ
coalesce_seconds = 15

-- `Unix()`: whole seconds since 1970, for an instant after 1970.
unfoldable pub unix : Instant → ℕ
unix t = t / second - 62_135_596_800

-- What the heartbeat is checked against: the epoch, the drain flag and the cache entry, if found.
pub record Known : Type 0 where
  pub epoch : ℕ
  pub drain_requested : Bool
  pub cached : Option CachedState

unfoldable pub known_from_db : Result (ℕ × WorkerStatus × Bool) → Action Known
known_from_db (err e) = throw not_found
known_from_db (ok (e, status, drain)) =
    if not (is_live status)
    then throw not_found
    else pure (record { epoch = e; drain_requested = drain; cached = none })

unfoldable pub fall_back : Uuid → Action Known
fall_back wid = do row ← attempt (get_epoch_and_status wid); known_from_db row

-- A cache miss and a failed read both fall back to Postgres.
unfoldable pub known_from_cache : Uuid → Result (Option CachedState) → Action Known
known_from_cache wid (ok (some c)) =
    pure (record { epoch = c.epoch; drain_requested = c.drain_requested; cached = some c })
known_from_cache wid (ok none) = fall_back wid
known_from_cache wid (err e) = fall_back wid

abbrev pub is_busy : Option WorkerStatus → Bool
is_busy none = false
is_busy (some s) = worker_status_eq s busy

-- The job of a BUSY cache entry, if the worker itself reports none.
unfoldable pub pushable : Option CachedState → Option Uuid → Option Uuid
pushable none reported = none
pushable (some c) (some r) = none
pushable (some c) none = if is_busy c.status then c.current_job_id else none

-- Only a job that is still ASSIGNED is handed over.
unfoldable pub to_assignment : ℕ → Result Job → Option JobAssignment
to_assignment e (err x) = none
to_assignment e (ok j) =
    if job_status_eq j.status assigned
    then some (record {
      job_id = j.id;
      assignment_epoch = e;
      repository = j.repository;
      branch = j.branch;
      commit_sha = j.commit_sha;
    })
    else none

unfoldable pub pending_assignment : ℕ → Option Uuid → Action (Option JobAssignment)
pending_assignment e none = pure none
pending_assignment e (some jid) = do j ← attempt (get jid); pure (to_assignment e j)

unfoldable pub confirm_running : Instant → ℕ → WorkerStatus → Option Uuid → Action (Unit {0})
confirm_running now e status none = pure tt
confirm_running now e status (some jid) =
    if worker_status_eq status busy
    then (do marked ← attempt (mark_running now jid e); pure tt)
    else pure tt

-- statusChanged || dueForFlush.
unfoldable pub must_flush : Instant → WorkerStatus → Option CachedState → Bool
must_flush now status none = true
must_flush now status (some c) =
    not (elim c.status [ none ↦ false | some s ↦ worker_status_eq status s ])
    || leb (c.last_pg_flush_unix + coalesce_seconds) (unix now)

abbrev last_flush : Option CachedState → ℕ
last_flush none = 0
last_flush (some c) = c.last_pg_flush_unix

unfoldable pub flushed_at : Instant → Option CachedState → Result Bool → ℕ
flushed_at now cached (err e) = last_flush cached
flushed_at now cached (ok b) = unix now

unfoldable pub flush :
    Instant → Uuid → ℕ → WorkerStatus → Option Uuid → Option CachedState → Action ℕ
flush now wid e status job_id cached =
    if must_flush now status cached
    then (do
      written ← attempt (update_heartbeat now wid e status job_id)
      pure (flushed_at now cached written))
    else pure (last_flush cached)

unfoldable pub accept : Instant → ℕ → Uuid → HeartbeatRequest → Known → Action HeartbeatResponse
accept now timeout_seconds wid req known =
    if not (req.epoch == known.epoch) then throw aborted else do
      let status = worker_status_to_db req.status
      assignment ← pending_assignment known.epoch (pushable known.cached req.current_job_id)
      confirm_running now known.epoch status req.current_job_id
      flushed ← flush now wid known.epoch status req.current_job_id known.cached
      ignore (
          set_state wid (record {
            epoch = known.epoch;
            status = status;
            current_job_id = req.current_job_id;
            available_capacity = req.available_capacity;
            last_pg_flush_unix = flushed;
          }))
      ignore (set_alive wid (now + timeout_seconds * second))
      pure (record {
        acknowledged = true;
        assignment = assignment;
        drain_requested = known.drain_requested;
      })

unfoldable pub heartbeat_of :
    Instant → ℕ → HeartbeatRequest → Option Uuid → Action HeartbeatResponse
heartbeat_of now timeout_seconds req none = throw invalid_argument
heartbeat_of now timeout_seconds req (some wid) = do
  cached ← attempt (get_state wid)
  known ← known_from_cache wid cached
  accept now timeout_seconds wid req known

unfoldable pub handle_heartbeat : Instant → ℕ → HeartbeatRequest → Action HeartbeatResponse
handle_heartbeat now timeout_seconds req = heartbeat_of now timeout_seconds req req.worker_id
