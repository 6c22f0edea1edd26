-- ===== src/Grpc/Liveness.antt =====
-- Which heartbeats are refused, internal/grpcserver/heartbeat.go.
use fleetforge.Base.{
  ℕ, ◌≡◌, ◌≢◌, refl, sym, subst, ◌∙◌, Bool, true, false, ◌==◌, Option, none, some, arith, All,
  query_row, query_row_sound, All-query_row, Bool-cases, inl, inr,
}
use fleetforge.Schema.{Uuid, Instant, Worker, WorkerStatus, is_live, Db}
use fleetforge.Statements.{has_id}
use fleetforge.World.{
  World, Result, ok, err, no_rows, pure, throw, attempt, statement, command, and_then, ◌>>=◌,
}
use fleetforge.WorkerStore.Liveness.{get_epoch_and_status, reapable}
use fleetforge.RedisStore.Cache.{CachedState, read_hash, get_state}
use fleetforge.Grpc.Proto.{HeartbeatRequest, HeartbeatResponse}
use fleetforge.Grpc.Heartbeat.{
  Known, known_from_db, fall_back, known_from_cache, accept, heartbeat_of, handle_heartbeat,
}

-- Neither the cache nor a live row of the database has the worker under the epoch.
abbrev pub IsUnknown : Uuid → ℕ → World → Type 0
IsUnknown wid e w =
    ((c : CachedState)
      → read_hash (w.redis.states wid).state (w.redis.states wid).drain_requested ≡ some c
      → c.epoch ≢ e)
    × All (λ v. reapable wid e v ≡ false) w.db.workers

-- No response, and nothing written.
abbrev pub Refused : World → Result HeartbeatResponse × World → Type 0
Refused before (r, v) =
    ((resp : HeartbeatResponse) → r ≢ ok resp) × (v.db ≡ before.db) × (v.redis ≡ before.redis)

module _ (now : Instant) (timeout_seconds : ℕ) (wid : Uuid) (req : HeartbeatRequest)
    (before : World) where
  accept_refuses :
      (known : Known) (v : World)
      → req.epoch ≢ known.epoch
      → v.db ≡ before.db
      → v.redis ≡ before.redis
      → Refused before (accept now timeout_seconds wid req known v)
  unfolding accept throw
  accept_refuses known v differs same_db same_redis =
      let unequal : (req.epoch == known.epoch) ≡ false = ground arith in
      rw unequal ((λ resp h. absurd (cc)), same_db, same_redis)

  row-Refused :
      (r : Result (ℕ × WorkerStatus × Bool)) (v : World)
      → ((e : ℕ) (s : WorkerStatus) (d : Bool)
          → r ≡ ok (e, s, d)
          → is_live s ≡ true
          → req.epoch ≢ e)
      → v.db ≡ before.db
      → v.redis ≡ before.redis
      → Refused before ((known_from_db r >>= λ known. accept now timeout_seconds wid req known) v)
  unfolding known_from_db ◌>>=◌ and_then throw pure accept
  row-Refused (err x) v differs same_db same_redis = ((λ resp h. absurd (cc)), same_db, same_redis)
  row-Refused (ok (e, s, d)) v differs same_db same_redis = elim (Bool-cases (is_live s)) [
    | inl live ↦
        let unequal : (req.epoch == e) ≡ false =
          let no : req.epoch ≢ e = differs e s d refl live in ground arith in
        rw live (rw unequal ((λ resp h. absurd (cc)), same_db, same_redis))
    | inr gone ↦ rw gone ((λ resp h. absurd (cc)), same_db, same_redis)
  ]

row_result : Option Worker → Result (ℕ × WorkerStatus × Bool)
row_result none = err no_rows
row_result (some v) = ok (v.epoch, v.status, v.drain_requested)

row_differs :
    (wid : Uuid) (e : ℕ) (w : World) (o : Option Worker)
    → All (λ v. reapable wid e v ≡ false) w.db.workers
    → query_row (has_id wid) w.db.workers ≡ o
    → (e' : ℕ) (s : WorkerStatus) (d : Bool) → row_result o ≡ ok (e', s, d)
    → is_live s ≡ true
    → e ≢ e'
unfolding row_result
row_differs wid e w none unknown is_o e' s d same live = absurd (cc)
row_differs wid e w (some v) unknown is_o e' s d same live =
    let found = query_row_sound (has_id wid) w.db.workers is_o in
    let other =
      All-query_row (λ v. reapable wid e v ≡ false) (has_id wid) w.db.workers unknown is_o in
    let epochs : v.epoch ≡ e' = ground arith in
    let statuses : v.status ≡ s = ground arith in
    let v_live : is_live v.status ≡ true = subst (λ t. is_live t ≡ true) (sym statuses) live in
    λ h. absurd (ground arith)

got_row :
    (wid : Uuid) (e : ℕ) (w : World)
    → All (λ v. reapable wid e v ≡ false) w.db.workers
    → ((e' : ℕ) (s : WorkerStatus) (d : Bool)
        → (get_epoch_and_status wid w).0 ≡ ok (e', s, d)
        → is_live s ≡ true
        → e ≢ e')
      × ((get_epoch_and_status wid w).1.db ≡ w.db)
      × ((get_epoch_and_status wid w).1.redis ≡ w.redis)
unfolding get_epoch_and_status statement row_result
got_row wid e w unknown = (
  λ e' s d h live.
      row_differs wid e w (query_row (has_id wid) w.db.workers) unknown refl e' s d (ground arith)
        live,
  ground arith,
  ground arith,
)

got_state :
    (wid : Uuid) (w : World)
    → ((c : CachedState)
        → (get_state wid w).0 ≡ ok (some c)
        → read_hash (w.redis.states wid).state (w.redis.states wid).drain_requested ≡ some c)
      × ((get_state wid w).1.db ≡ w.db)
      × ((get_state wid w).1.redis ≡ w.redis)
unfolding get_state command
got_state wid w = (λ c h. ground arith, ground arith, ground arith)

module _ (now : Instant) (timeout_seconds : ℕ) (wid : Uuid) (req : HeartbeatRequest)
    (before : World) where
  fall_back-Refused :
      (v : World)
      → All (λ u. reapable wid req.epoch u ≡ false) before.db.workers
      → v.db ≡ before.db
      → v.redis ≡ before.redis
      → Refused before ((fall_back wid >>= λ known. accept now timeout_seconds wid req known) v)
  unfolding fall_back ◌>>=◌ attempt and_then known_from_db pure throw accept get_epoch_and_status
  fall_back-Refused v unknown same_db same_redis =
      let unknown_here =
        subst (λ (db : Db). All (λ u. reapable wid req.epoch u ≡ false) db.workers) (sym same_db)
          unknown in
      let (differs, db_kept, redis_kept) = got_row wid req.epoch v unknown_here in
      row-Refused now timeout_seconds wid req before (get_epoch_and_status wid v).0
        (get_epoch_and_status wid v).1 differs (db_kept ∙ same_db) (redis_kept ∙ same_redis)

  known-Refused :
      (r : Result (Option CachedState)) (v : World)
      → ((c : CachedState) → r ≡ ok (some c) → c.epoch ≢ req.epoch)
      → All (λ u. reapable wid req.epoch u ≡ false) before.db.workers
      → v.db ≡ before.db
      → v.redis ≡ before.redis
      → Refused before
          ((known_from_cache wid r >>= λ known. accept now timeout_seconds wid req known) v)
  unfolding known_from_cache ◌>>=◌ and_then pure
  known-Refused (ok (some c)) v differs unknown same_db same_redis =
      accept_refuses now timeout_seconds wid req before
        (record { epoch = c.epoch; drain_requested = c.drain_requested; cached = some c }) v
        (λ h. differs c refl (sym h)) same_db same_redis
  known-Refused (ok none) v differs unknown same_db same_redis =
      fall_back-Refused v unknown same_db same_redis
  known-Refused (err e) v differs unknown same_db same_redis =
      fall_back-Refused v unknown same_db same_redis

-- A heartbeat under an epoch that neither the cache nor a live row of the database has for the
-- worker gets no response and writes nothing.
pub handle_heartbeat-Refused :
    (now : Instant) (timeout_seconds : ℕ) (wid : Uuid) (req : HeartbeatRequest) (w : World)
    → req.worker_id ≡ some wid
    → IsUnknown wid req.epoch w
    → Refused w (handle_heartbeat now timeout_seconds req w)
unfolding handle_heartbeat heartbeat_of ◌>>=◌ attempt and_then
handle_heartbeat-Refused now timeout_seconds wid req w names (uncached, unknown) =
    let (entry, same_db, same_redis) = got_state wid w in
    let refused =
      known-Refused now timeout_seconds wid req w (get_state wid w).0 (get_state wid w).1
        (λ c h. uncached c (entry c h)) unknown same_db same_redis in
    subst (λ o. Refused w (heartbeat_of now timeout_seconds req o w)) (sym names) refused
