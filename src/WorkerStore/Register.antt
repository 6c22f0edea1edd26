-- ===== src/WorkerStore/Register.antt =====
-- WorkerStore.Register, internal/store/postgres/workers.go.
use fleetforge.Base.{
  ℕ, zero, suc, ◌+◌, String, Bool, false, ◌&&◌, not, none, some, List, ◌∷◌, ltb, if◌then◌else◌,
  is_some, query_row, update,
}
use fleetforge.Base.Int.{ℤ, pos, negsuc, pos_part}
use fleetforge.Schema.{Uuid, Instant, Worker, registering, ready, Db, registered}
use fleetforge.World.{
  Result, ok, err, call_failed, Action, pure, statement, begin_func, ◌>>=◌, ◌>>◌,
}
use fleetforge.Statements.{has_instance, has_id, insert_event}

pub record RegisterWorkerParams : Type 0 where
  pub hostname : String
  pub instance_id : String
  pub os : String
  pub cpu_cores : ℤ
  pub memory_mb : ℤ
  pub labels : List (String × String)
  pub capabilities : List String
  pub version : String
  pub capacity_slots : ℤ

pub record RegisteredWorker : Type 0 where
  pub id : Uuid
  pub epoch : ℕ

-- `if p.CapacitySlots <= 0 { p.CapacitySlots = 1 }`.
unfoldable pub default_slots : ℤ → ℕ
default_slots (pos zero) = 1
default_slots (pos (suc n)) = suc n
default_slots (negsuc n) = 1

-- CHECK (cpu_cores > 0) and CHECK (memory_mb > 0).
abbrev pub passes_checks : RegisterWorkerParams → Bool
passes_checks p = ltb 0 (pos_part p.cpu_cores) && ltb 0 (pos_part p.memory_mb)

-- VALUES (…, 'REGISTERING', …, 1).
unfoldable pub new_worker : Uuid → Instant → RegisterWorkerParams → Worker
new_worker new_id now p = record {
  id = new_id;
  hostname = p.hostname;
  instance_id = p.instance_id;
  os = p.os;
  cpu_cores = pos_part p.cpu_cores;
  memory_mb = pos_part p.memory_mb;
  labels = p.labels;
  capabilities = p.capabilities;
  status = registering;
  current_job_id = none;
  current_job_created_at = none;
  last_heartbeat = none;
  version = p.version;
  capacity_slots = default_slots p.capacity_slots;
  available_capacity = default_slots p.capacity_slots;
  epoch = 1;
  registered_at = now;
  drain_requested = false;
}

-- ON CONFLICT (instance_id) DO UPDATE SET …: `registered_at` and `drain_requested` stay.
unfoldable pub on_conflict : RegisterWorkerParams → Worker → Worker
on_conflict p w = record w {
  hostname = p.hostname;
  os = p.os;
  cpu_cores = pos_part p.cpu_cores;
  memory_mb = pos_part p.memory_mb;
  labels = p.labels;
  capabilities = p.capabilities;
  status = registering;
  version = p.version;
  capacity_slots = default_slots p.capacity_slots;
  available_capacity = default_slots p.capacity_slots;
  current_job_id = none;
  current_job_created_at = none;
  last_heartbeat = none;
  epoch = w.epoch + 1;
}

-- The upsert and its RETURNING id, epoch. A new id that is taken violates the primary key.
unfoldable pub upsert_worker :
    Uuid → Instant → RegisterWorkerParams → Db → Result RegisteredWorker × Db
upsert_worker new_id now p db =
    if not (passes_checks p)
    then (err call_failed, db)
    else elim (query_row (has_instance p.instance_id) db.workers) [
      | some w ↦ (
        ok (record { id = w.id; epoch = w.epoch + 1 }),
        record db { workers = update (has_instance p.instance_id) (on_conflict p) db.workers },
      )
      | none ↦ if is_some (query_row (has_id new_id) db.workers) then (err call_failed, db) else (
        ok (record { id = new_id; epoch = 1 }),
        record db { workers = new_worker new_id now p ∷ db.workers },
      )
    ]

-- UPDATE workers SET status = 'READY', last_heartbeat = now() WHERE id = $1.
unfoldable pub promote_to_ready : Instant → Uuid → Db → Result (Unit {0}) × Db
promote_to_ready now wid db = (
  ok tt,
  record db {
    workers =
        update (has_id wid) (λ w. record w { status = ready; last_heartbeat = some now })
          db.workers;
  },
)

-- `new_id` is what gen_random_uuid() returns, if a row is inserted.
unfoldable pub register : Uuid → Instant → RegisterWorkerParams → Action RegisteredWorker
register new_id now p = begin_func do
  result ← statement (upsert_worker new_id now p)
  statement (insert_event result.id (registered result.epoch p.instance_id))
  statement (promote_to_ready now result.id)
  pure result
