-- ===== src/Grpc/Register.antt =====
-- RegisterWorker and validateRegisterRequest, internal/grpcserver/register.go.
use fleetforge.Base.{ℕ, Bool, ◌||◌, none, str_eq, if◌then◌else◌}
use fleetforge.Base.Int.{pos, leb_ℤ}
use fleetforge.Schema.{Uuid, Instant, ready}
use fleetforge.World.{invalid_argument, internal, Action, pure, throw, attempt, ◌>>=◌, ◌>>◌}
use fleetforge.WorkerStore.Register.{RegisterWorkerParams, default_slots, register}
use fleetforge.RedisStore.Cache.{set_state}
use fleetforge.Scheduler.Loop.{ignore}
use fleetforge.Grpc.Proto.{RegisterWorkerResponse}
use fleetforge.Grpc.Report.{or_error}

-- The request's fields are those of RegisterWorkerParams.
unfoldable pub is_invalid : RegisterWorkerParams → Bool
is_invalid p =
    str_eq p.hostname ""
    || str_eq p.instance_id ""
    || str_eq p.os ""
    || leb_ℤ p.cpu_cores (pos 0)
    || leb_ℤ p.memory_mb (pos 0)
    || str_eq p.version ""

unfoldable pub register_worker :
    ℕ → ℕ → Uuid → Instant → RegisterWorkerParams → Action RegisterWorkerResponse
register_worker interval_seconds timeout_seconds new_id now p =
    if is_invalid p then throw invalid_argument else do
      r ← attempt (register new_id now p)
      registered ← or_error r (throw internal)
      ignore (
          set_state registered.id (record {
            epoch = registered.epoch;
            status = ready;
            current_job_id = none;
            available_capacity = pos (default_slots p.capacity_slots);
            last_pg_flush_unix = 0;
          }))
      pure (record {
        worker_id = registered.id;
        epoch = registered.epoch;
        heartbeat_interval_seconds = interval_seconds;
        heartbeat_timeout_seconds = timeout_seconds;
      })
