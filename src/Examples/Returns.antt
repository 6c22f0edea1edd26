-- ===== src/Examples/Returns.antt =====
-- A worker that registers again, at a concrete input.
use fleetforge.Base.{◌≡◌, ◌≢◌, refl, false, query_row, some, none, [], ◌∷◌, arith}
use fleetforge.Base.Int.{pos}
use fleetforge.World.{
  World, ok, ◌>>=◌, and_then, attempt, begin_func, finish, statement, command, pure,
}
use fleetforge.Consistency.{IsConsistent}
use fleetforge.WorkerStore.Register.{upsert_worker, promote_to_ready, register}
use fleetforge.Statements.{insert_event}
use fleetforge.Grpc.Proto.{ProtoWorkerStatus, HeartbeatRequest, RegisterWorkerResponse}
use fleetforge.Grpc.Register.{is_invalid, register_worker}
use fleetforge.Grpc.Heartbeat.{handle_heartbeat}
use fleetforge.Grpc.Liveness.{Refused}
use fleetforge.RedisStore.Cache.{CachedState, set_state, read_hash, write_key}
use fleetforge.Agent.Startup.{to_int32, started_agent}
use fleetforge.Agent.FirstBeat.{IsKnown, Acknowledges, register_worker-IsKnown}
use fleetforge.Agent.{heartbeat}
use fleetforge.Effects.Values.{Returns}
use fleetforge.Schema.{busy}
use fleetforge.Grpc.Superseding.{register_worker-Refused}
use fleetforge.Examples.Fleet.{worker, world_of}
use fleetforge.Examples.Services.{joins}

-- One worker, of the instance that registers again.
abbrev alone : World
alone = world_of (record {
  workers = record (worker 7 2 2) { instance_id = joins.instance_id } ∷ [];
  jobs = [];
  history = [];
  events = [];
})

alone-IsConsistent : IsConsistent alone.db
alone-IsConsistent = record {
  jobs_sound = tt;
  workers_sound =
      (record { bounded = omega arith; has_slots = omega arith; has_epoch = omega arith }, tt);
  ids_differ = (tt, tt);
  keys_differ = tt;
  numbered = tt;
  fenced = tt;
}

abbrev new_epoch : RegisterWorkerResponse
new_epoch = record {
  worker_id = 7;
  epoch = 3;
  heartbeat_interval_seconds = 5;
  heartbeat_timeout_seconds = 20;
}

abbrev former_beat : HeartbeatRequest
former_beat = record {
  worker_id = some 7;
  epoch = 2;
  status = ProtoWorkerStatus.ready;
  current_job_id = none;
  available_capacity = pos 2;
}

registers_again : (register_worker 5 20 9 300 joins alone).0 ≡ ok new_epoch
unfolding register_worker register is_invalid ◌>>=◌ attempt begin_func statement upsert_worker
    query_row insert_event promote_to_ready pure
registers_again = refl

writes_cache : (register 9 300 joins alone).1.fails (register 9 300 joins alone).1.calls ≡ false
unfolding register begin_func ◌>>=◌ statement upsert_worker query_row insert_event promote_to_ready
    pure
writes_cache = refl

former : former_beat.epoch ≢ new_epoch.epoch
former h = omega (arith, h)

register_worker-Refused_example :
    Refused
      (register_worker 5 20 9 300 joins alone).1
      (handle_heartbeat 400 20 former_beat (register_worker 5 20 9 300 joins alone).1)
register_worker-Refused_example =
    register_worker-Refused 5 20 9 300 joins alone new_epoch 400 former_beat alone-IsConsistent
      registers_again writes_cache refl former

two_slots : joins.capacity_slots ≡ to_int32 (pos 2)
unfolding to_int32
two_slots = refl

-- Before the first heartbeat the worker has been given a job.
abbrev given_job : CachedState
given_job = record {
  epoch = 3;
  status = some busy;
  current_job_id = some 5;
  available_capacity = pos 1;
  last_pg_flush_unix = 0;
  drain_requested = false;
}

abbrev world_with_job : World
world_with_job =
    (set_state 7
      (record {
        epoch = 3;
        status = busy;
        current_job_id = some 5;
        available_capacity = pos 1;
        last_pg_flush_unix = 0;
      })
      (register_worker 5 20 9 300 joins alone).1).1

reads_assignment :
    read_hash (world_with_job.redis.states 7).state (world_with_job.redis.states 7).drain_requested
    ≡ some given_job
unfolding register_worker register is_invalid set_state read_hash write_key command ◌>>=◌ and_then
    attempt begin_func finish statement upsert_worker query_row insert_event promote_to_ready pure
reads_assignment = refl

may_read : world_with_job.fails world_with_job.calls ≡ false
unfolding register_worker register is_invalid set_state command ◌>>=◌ and_then attempt begin_func
    finish statement upsert_worker query_row insert_event promote_to_ready pure
may_read = refl

register_worker-IsKnown_example :
    IsKnown (started_agent new_epoch (pos 2)) (register_worker 5 20 9 300 joins alone).1
    × Returns
        (Acknowledges false)
        (handle_heartbeat 400 20 (heartbeat 7 3 (started_agent new_epoch (pos 2)).state))
        world_with_job
register_worker-IsKnown_example =
    register_worker-IsKnown 5 20 9 300 joins alone new_epoch (pos 2) world_with_job given_job 400
      alone-IsConsistent two_slots registers_again writes_cache reads_assignment refl may_read
