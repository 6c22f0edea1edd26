-- ===== src/Examples/Fleet.antt =====
-- A small fleet, and exact fractions in the place of float64.
use fleetforge.Base.{
  ℕ, ◌+◌, ◌*◌, ◌/◌, refl, false, none, some, [], ◌∷◌, arith, ltb, query_row, count,
}
use fleetforge.Base.Int.{pos}
use fleetforge.Schema.{Uuid, Worker, Job, Db, ready, queued, assigned}
use fleetforge.World.{World}
use fleetforge.Consistency.{IsConsistent}
use fleetforge.Scheduler.Select.{Floats}

abbrev pub worker : Uuid → ℕ → ℕ → Worker
worker id epoch slots = record {
  id = id;
  hostname = "build";
  instance_id = "i-1";
  os = "linux";
  cpu_cores = 4;
  memory_mb = 8192;
  labels = [];
  capabilities = "docker" ∷ [];
  status = ready;
  current_job_id = none;
  current_job_created_at = none;
  last_heartbeat = some 90;
  version = "1.0";
  capacity_slots = slots;
  available_capacity = slots;
  epoch = epoch;
  registered_at = 80;
  drain_requested = false;
}

abbrev pub waiting_job : Job
waiting_job = record {
  id = 5;
  priority = 3;
  repository = "fleetforge";
  branch = "main";
  commit_sha = "abc";
  labels = [];
  required_capabilities = "docker" ∷ [];
  retries = pos 0;
  max_retries = pos 3;
  status = queued;
  worker_id = none;
  assignment_epoch = none;
  idempotency_key = none;
  retry_at = none;
  log_ref = none;
  created_at = 100;
  started_at = none;
  finished_at = none;
}

abbrev pub held_job : Job
held_job = record waiting_job { status = assigned; worker_id = some 7; assignment_epoch = some 2 }

abbrev pub db_with : Job → Db
db_with j = record {
  workers = worker 7 2 2 ∷ worker 8 1 4 ∷ [];
  jobs = j ∷ [];
  history = [];
  events = [];
}

abbrev pub world_of : Db → World
world_of db = record {
  db = db;
  redis = record {
    states = λ k. record { state = none; drain_requested = none };
    alive_until = λ k. none;
    streams = λ p. record { next_number = 1; undelivered = []; pending = [] };
  };
  fails = λ n. false;
  calls = 0;
}

abbrev pub fleet : World
fleet = world_of (db_with waiting_job)

pub fleet-IsConsistent : IsConsistent fleet.db
unfolding query_row count
fleet-IsConsistent = record {
  jobs_sound = (
    record {
      held = λ h. absurd (cc);
      free = λ h. (refl, refl);
      parked = λ h. absurd (cc);
      budget = omega arith;
    },
    tt,
  );
  workers_sound = (
    record { bounded = omega arith; has_slots = omega arith; has_epoch = omega arith },
    (record { bounded = omega arith; has_slots = omega arith; has_epoch = omega arith }, tt),
  );
  ids_differ = ((λ h. omega (arith, h), tt), (tt, tt));
  keys_differ = (tt, tt);
  numbered = tt;
  fenced = (refl, tt);
}

abbrev pub held : World
held = world_of (db_with held_job)

-- Exact fractions in the place of float64.
abbrev pub fractions : Floats
fractions = record {
  Float = ℕ × ℕ;
  of_ℕ = λ n. (n, 1);
  div = λ x y. (x.0 * y.1, x.1 * y.0);
  mul = λ x y. (x.0 * y.0, x.1 * y.1);
  add = λ x y. (x.0 * y.1 + y.0 * x.1, x.1 * y.1);
  gt = λ x y. ltb (y.0 * x.1) (x.0 * y.1);
  trunc = λ x. x.0 / x.1;
}
