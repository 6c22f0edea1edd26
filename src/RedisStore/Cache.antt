-- ===== src/RedisStore/Cache.antt =====
-- WorkerCache, internal/store/redis/cache.go. Every method is one Redis command.
use fleetforge.Base.{ℕ, Bool, false, Option, none, some, ◌==◌, if◌then◌else◌}
use fleetforge.Base.Int.{ℤ, pos}
use fleetforge.Schema.{Uuid, Instant, WorkerStatus}
use fleetforge.World.{WorkerState, Action, command}

-- What GetState returns for a hash that exists: a missing field reads as 0, "" or false.
pub record CachedState : Type 0 where
  pub epoch : ℕ
  pub status : Option WorkerStatus
  pub current_job_id : Option Uuid
  pub available_capacity : ℤ
  pub last_pg_flush_unix : ℕ
  pub drain_requested : Bool

unfoldable pub write_key : {A : Type 0} → Uuid → A → (Uuid → A) → Uuid → A
write_key wid a f k = if k == wid then a else f k

unfoldable pub set_state : Uuid → WorkerState → Action (Unit {0})
set_state wid s = command λ r.
    (tt, record r { states = write_key wid (record (r.states wid) { state = some s }) r.states })

unfoldable pub set_drain_requested : Uuid → Bool → Action (Unit {0})
set_drain_requested wid b = command λ r. (
  tt,
  record r { states = write_key wid (record (r.states wid) { drain_requested = some b }) r.states },
)

abbrev pub parse_bool : Option Bool → Bool
parse_bool none = false
parse_bool (some b) = b

abbrev read_fields : Option WorkerState → Bool → CachedState
read_fields none drain = record {
  epoch = 0;
  status = none;
  current_job_id = none;
  available_capacity = pos 0;
  last_pg_flush_unix = 0;
  drain_requested = drain;
}
read_fields (some s) drain = record {
  epoch = s.epoch;
  status = some s.status;
  current_job_id = s.current_job_id;
  available_capacity = s.available_capacity;
  last_pg_flush_unix = s.last_pg_flush_unix;
  drain_requested = drain;
}

-- `none` is found=false: HGETALL of a key that has no field.
unfoldable pub read_hash : Option WorkerState → Option Bool → Option CachedState
read_hash none none = none
read_hash none (some b) = some (read_fields none b)
read_hash (some s) d = some (read_fields (some s) (parse_bool d))

unfoldable pub get_state : Uuid → Action (Option CachedState)
get_state wid = command λ r. (read_hash (r.states wid).state (r.states wid).drain_requested, r)

unfoldable pub set_alive : Uuid → Instant → Action (Unit {0})
set_alive wid until =
    command λ r. (tt, record r { alive_until = write_key wid (some until) r.alive_until })

-- DEL of both keys.
unfoldable pub delete : Uuid → Action (Unit {0})
delete wid = command λ r. (
  tt,
  record r {
    states = write_key wid (record { state = none; drain_requested = none }) r.states;
    alive_until = write_key wid none r.alive_until;
  },
)
