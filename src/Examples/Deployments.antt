-- ===== src/Examples/Deployments.antt =====
-- The theorems on the scheduler's start and on several replicas, at concrete ones.
use fleetforge.Base.{
  ℕ, ◌≡◌, refl, sym, ap, ◌∙◌, order_by, select, ◌||◌, ◌==◌, if◌then◌else◌, Bool, true, false,
  Option, none, some, List, [], ◌∷◌, arith,
}
use fleetforge.Base.Int.{pos}
use fleetforge.Base.Bytes.{Bytes, codes}
use fleetforge.Base.Checked.{◌>>=◌}
use fleetforge.World.{World, statement, attempt, for_each, pure}
use fleetforge.Consistency.Runs.{polls, empty_db, step}
use fleetforge.WorkerStore.Drain.{clamp_limit}
use fleetforge.Scheduler.Sweeps.{poll, poll_all}
use fleetforge.JobStore.Transitions.{list_due_retries}
use fleetforge.Scheduler.Leader.{
  new_leader_elector, try_acquire_or_verify, acquire_on, lock_scanned,
}
use fleetforge.Scheduler.Leadership.{check_at}
use fleetforge.Deployment.{
  Deployment, with_electors, Reach, gated_step, act_at, admits, is_background,
}
use fleetforge.Deployment.OneActor.{Acts, IsConnected, reach-one_actor}
use fleetforge.Auth.Mtls.{require_and_verify_client_cert, version_tls12}
use fleetforge.Config.Load.{Env}
use fleetforge.Deployment.Startup.{Machine, Started, tls}
use fleetforge.Examples.Fleet.{fractions, world_of}
use fleetforge.Examples.Services.{timing, thresholds, fresh_cluster}
use fleetforge.Examples.Replicas.{
  one_lock, one_lock-IsExclusive, healthy, replica_session, healthy-IsPossible, ask,
}

abbrev installed : Deployment one_lock
installed = record {
  electors = record { replicas = λ r. new_leader_elector; ended = λ s. false; lock_state = none };
  world = world_of empty_db;
  autoscalers = λ r. fresh_cluster.autoscaler;
}

-- Replica 0 has made its first check.
abbrev led : Deployment one_lock
led = with_electors (check_at one_lock 0 (healthy (replica_session 0)) installed.electors) installed

led-Reach : Reach one_lock fractions thresholds timing (world_of empty_db) led
unfolding new_leader_elector
led-Reach =
    Reach.checked 0 (healthy (replica_session 0))
      (Reach.started none (λ r. fresh_cluster.autoscaler)) (healthy-IsPossible _ 0 _ refl)

polled_calls : (act_at one_lock fractions thresholds timing 0 (polls 300) led).world.calls ≡ 1
unfolding try_acquire_or_verify acquire_on lock_scanned new_leader_elector ask gated_step admits
    is_background step poll list_due_retries statement attempt poll_all fleetforge.World.◌>>=◌
    for_each clamp_limit order_by select pure
polled_calls = refl

led-Acts : Acts one_lock fractions thresholds timing 0 led
unfolding is_background
led-Acts = (
  polls 300,
  refl,
  λ same.
      (let calls : 1 ≡ 0 = sym polled_calls ∙ ap (λ (w : World). w.calls) same in
        absurd (omega (arith, calls))),
)

led-IsConnected : IsConnected one_lock fractions thresholds timing 0 led
led-IsConnected s kept = refl

reach-one_actor_example : ◌≡◌ {A = ℕ} 0 0
reach-one_actor_example =
    reach-one_actor one_lock fractions thresholds timing one_lock-IsExclusive (world_of empty_db)
      led 0 0 led-Reach led-Acts led-Acts led-IsConnected led-IsConnected

has_group : ℕ → List ℕ → Bool
has_group p [] = false
has_group p (q ∷ st) = p == q || has_group p st

xgroup_create : ℕ → List ℕ → Option Bytes × List ℕ
unfolding has_group
xgroup_create p st =
    if has_group p st then (some (codes "BUSYGROUP group exists"), st) else (none, p ∷ st)

-- A machine on which everything answers, with the priorities whose streams have the group.
abbrev machine : Machine
machine = record {
  PoolConfig = Bytes;
  Pool = Bytes;
  parse_config = λ url. some url;
  with_limits = λ conns lifetime cfg. cfg;
  new_with_config = λ cfg. some cfg;
  ping_pool = λ pool. true;
  Client = Bytes;
  client_of = λ addr. addr;
  ping_client = λ client. true;
  Streams = List ℕ;
  create_group = λ client p st. xgroup_create p st;
  files = record {
    KeyPair = Bytes × Bytes;
    CertPool = Bytes;
    load_key_pair = λ cert key. some (cert, key);
    read_file = λ name. some name;
    append_certs_from_pem = λ pem. some pem;
  };
  listen = λ addr. true;
}

-- Every variable is set to the same text, the names of the three TLS files too.
abbrev fives : Env
fives key = codes "5"

abbrev five : Bytes
five = codes "5"

abbrev serving : Started machine
serving = record {
  pool = five;
  client = five;
  streams = 9 ∷ 8 ∷ 7 ∷ 6 ∷ 5 ∷ 4 ∷ 3 ∷ 2 ∷ 1 ∷ 0 ∷ [];
  credentials = tls (record {
    certificate = (five, five);
    client_cas = some five;
    client_auth = require_and_verify_client_cert;
    root_cas = none;
    min_version = version_tls12;
  });
  grpc_interval_seconds = pos 5;
  grpc_timeout_seconds = pos 5;
  reaper_timeout_seconds = pos 5;
  jwt_secret = five;
}
