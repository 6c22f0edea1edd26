-- ===== src/Agent/Startup.antt =====
-- How an agent starts, main of cmd/worker-agent/main.go: its credentials, its registration and the
-- state of its heartbeat loop. The files, gRPC and the scheduler's answer are parameters.
use fleetforge.Base.{
  ℕ, ◌-◌, ◌%◌, ◌^◌, Bool, ◌&&◌, not, Option, none, some, List, ltb, if◌then◌else◌,
}
use fleetforge.Base.Int.{ℤ, pos, negsuc}
use fleetforge.Base.Bytes.{Bytes}
use fleetforge.Base.Checked.{Checked, passed, refused, ◌>>=◌}
use fleetforge.Auth.Mtls.{Files, TlsConfig, TlsError, client_tls_config}
use fleetforge.Schema.{Uuid}
use fleetforge.WorkerStore.Register.{default_slots}
use fleetforge.Config.Load.{Loaded, loaded, failed, ConfigError, Labels, WorkerAgentConfig}
use fleetforge.Config.Text.{is_empty}
use fleetforge.Grpc.Proto.{RegisterWorkerResponse}
use fleetforge.Agent.{AgentState, initial_state, heartbeat_interval}

-- `int32(n)` of an int: the low 32 bits.
unfoldable pub low_bits : ℤ → ℕ
low_bits (pos n) = n % 2 ^ 32
low_bits (negsuc n) = 2 ^ 32 - 1 - n % 2 ^ 32

unfoldable pub to_int32 : ℤ → ℤ
unfolding low_bits
to_int32 n =
    let bits = low_bits n in if ltb bits (2 ^ 31) then pos bits else negsuc (2 ^ 32 - 1 - bits)

pub record RegisterRequest : Type 0 where
  pub hostname : Bytes
  pub instance_id : Bytes
  pub os : Bytes
  pub cpu_cores : ℤ
  pub memory_mb : ℤ
  pub labels : Labels
  pub capabilities : List Bytes
  pub version : Bytes
  pub capacity_slots : ℤ

unfoldable pub register_request : {Float : Type 0} → WorkerAgentConfig Float → RegisterRequest
register_request c = record {
  hostname = c.hostname;
  instance_id = c.instance_id;
  os = c.os;
  cpu_cores = to_int32 c.cpu_cores;
  memory_mb = to_int32 c.memory_mb;
  labels = c.labels;
  capabilities = c.capabilities;
  version = c.version;
  capacity_slots = to_int32 c.capacity_slots;
}

-- credentials.NewTLS, grpc.NewClient and the call of RegisterWorker; `none` is an error.
pub record Network : Type 1 where
  pub Creds : Type 0
  pub Conn : Type 0
  pub insecure : Creds
  pub files : Files
  pub new_tls : TlsConfig files → Creds
  pub dial : Bytes → Creds → Option Conn
  pub register : Conn → RegisterRequest → Option RegisterWorkerResponse

-- heartbeatDeps, without the client, the log and the executor.
pub record StartedAgent : Type 0 where
  pub worker_id : Uuid
  pub epoch : ℕ
  pub interval : ℕ
  pub capacity_slots : ℕ
  pub state : AgentState

unfoldable pub started_agent : RegisterWorkerResponse → ℤ → StartedAgent
started_agent resp slots = record {
  worker_id = resp.worker_id;
  epoch = resp.epoch;
  interval = heartbeat_interval (pos resp.heartbeat_interval_seconds);
  capacity_slots = default_slots (to_int32 slots);
  state = initial_state (to_int32 slots);
}

-- The agent in its heartbeat loop, or the log.Fatal that ended the process.
pub data Start : Type 0 where
  heartbeats : StartedAgent → Start
  invalid_config : ConfigError → Start
  no_tls_config : TlsError → Start
  no_connection registration_failed : Start

-- All three files are configured.
unfoldable pub wants_tls : (cert key ca : Bytes) → Bool
wants_tls cert key ca = not (is_empty cert) && not (is_empty key) && not (is_empty ca)

module _ (net : Network) where
  open net use {Creds, Conn, insecure, files, new_tls, dial, register}

  unfoldable pub credentials : {Float : Type 0} → WorkerAgentConfig Float → Checked TlsError Creds
  credentials c =
      if wants_tls c.tls_cert_file c.tls_key_file c.tls_ca_file
      then (do
        config ← client_tls_config files c.tls_cert_file c.tls_key_file c.tls_ca_file
        passed (new_tls config))
      else passed insecure

  unfoldable pub after_registering : ℤ → Option RegisterWorkerResponse → Start
  after_registering slots none = registration_failed
  after_registering slots (some resp) = heartbeats (started_agent resp slots)

  unfoldable pub register_on : {Float : Type 0} → WorkerAgentConfig Float → Option Conn → Start
  register_on c none = no_connection
  register_on c (some conn) =
      after_registering c.capacity_slots (register conn (register_request c))

  unfoldable pub dial_with :
      {Float : Type 0} → WorkerAgentConfig Float → Checked TlsError Creds → Start
  dial_with c (refused e) = no_tls_config e
  dial_with c (passed creds) = register_on c (dial c.scheduler_grpc_addr creds)

  unfoldable pub start_agent : {Float : Type 0} → Loaded (WorkerAgentConfig Float) → Start
  start_agent (failed e) = invalid_config e
  start_agent (loaded c) = dial_with c (credentials c)
