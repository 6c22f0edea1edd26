-- ===== src/Config/Load.antt =====
-- LoadSchedulerConfig and LoadWorkerAgentConfig, internal/config/config.go.
use fleetforge.Base.{ℕ, String, Bool, true, false, Option, none, some, List, [], ◌∷◌, if◌then◌else◌}
use fleetforge.Base.Int.{ℤ, pos, leb_ℤ}
use fleetforge.Base.Bytes.{Bytes, codes, bytes_eq, split}
use fleetforge.Config.Text.{is_empty, trim_space, cut, atoi}

-- os.Getenv: a variable that is not set reads as the empty text.
abbrev pub Env : Type 0
Env = String → Bytes

pub data ConfigError : Type 0 where
  is_required : String → ConfigError
  invalid_integer : String → ConfigError
  not_positive : String → ConfigError
  invalid_float : String → ConfigError

pub data Loaded {ℓ} (A : Type ℓ) : Type ℓ where
  loaded : A → Loaded A
  failed : ConfigError → Loaded A

infixl 5 ◌>>=◌
unfoldable pub ◌>>=◌ {ℓ} : {A B : Type ℓ} → Loaded A → (A → Loaded B) → Loaded B
loaded a >>= f = f a
failed e >>= f = failed e

-- `if ... { return cfg, fmt.Errorf(...) }`.
unfoldable pub reject_if : Bool → ConfigError → Loaded (Unit {0})
reject_if true e = failed e
reject_if false e = loaded tt

abbrev pub or_default : Bytes → Bytes → Bytes
or_default [] def = def
or_default (c ∷ s) def = c ∷ s

unfoldable pub get_env_default : Env → String → Bytes → Bytes
get_env_default env key def = or_default (env key) def

unfoldable pub int_of : String → Option ℤ → Loaded ℤ
int_of key none = failed (invalid_integer key)
int_of key (some n) = loaded n

unfoldable pub get_env_int_default : Env → String → ℤ → Loaded ℤ
get_env_int_default env key def =
    if is_empty (env key) then loaded def else int_of key (atoi (env key))

pub record SchedulerConfig : Type 0 where
  pub database_url : Bytes
  pub redis_addr : Bytes
  pub grpc_addr : Bytes
  pub http_addr : Bytes
  pub heartbeat_interval_seconds : ℤ
  pub heartbeat_timeout_seconds : ℤ
  pub jwt_secret : Bytes
  pub tls_cert_file : Bytes
  pub tls_key_file : Bytes
  pub tls_ca_file : Bytes

unfoldable pub load_scheduler_config : Env → Loaded SchedulerConfig
load_scheduler_config env = do
  _ ← reject_if (is_empty (env "FLEETFORGE_DATABASE_URL")) (is_required "FLEETFORGE_DATABASE_URL")
  interval ← get_env_int_default env "FLEETFORGE_HEARTBEAT_INTERVAL_SECONDS" (pos 5)
  timeout ← get_env_int_default env "FLEETFORGE_HEARTBEAT_TIMEOUT_SECONDS" (pos 20)
  loaded (record {
    database_url = env "FLEETFORGE_DATABASE_URL";
    redis_addr = get_env_default env "FLEETFORGE_REDIS_ADDR" (codes "localhost:6379");
    grpc_addr = get_env_default env "FLEETFORGE_GRPC_ADDR" (codes ":9090");
    http_addr = get_env_default env "FLEETFORGE_HTTP_ADDR" (codes ":8080");
    heartbeat_interval_seconds = interval;
    heartbeat_timeout_seconds = timeout;
    jwt_secret = env "FLEETFORGE_JWT_SECRET";
    tls_cert_file = env "FLEETFORGE_TLS_CERT_FILE";
    tls_key_file = env "FLEETFORGE_TLS_KEY_FILE";
    tls_ca_file = env "FLEETFORGE_TLS_CA_FILE";
  })

abbrev pub keep_filled : Bytes → List Bytes → List Bytes
keep_filled [] ps = ps
keep_filled (c ∷ p) ps = (c ∷ p) ∷ ps

unfoldable pub filled : List Bytes → List Bytes
filled [] = []
filled (p ∷ ps) = keep_filled (trim_space p) (filled ps)

abbrev pub comma : ℕ
comma = b','

unfoldable pub parse_list : Bytes → List Bytes
parse_list [] = []
parse_list (c ∷ raw) = filled (split comma (c ∷ raw))

-- A map from labels to values, by its entries.
abbrev pub Labels : Type 0
Labels = List (Bytes × Bytes)

-- The assignment to a key of the map.
unfoldable pub put_label : Bytes → Bytes → Labels → Labels
put_label k v [] = (k, v) ∷ []
put_label k v ((k', v') ∷ m) =
    let rest = put_label k v m in if bytes_eq k k' then (k, v) ∷ m else (k', v') ∷ rest

unfoldable pub add_pair : Option (Bytes × Bytes) → Labels → Labels
add_pair none m = m
add_pair (some (k, v)) m = if is_empty k then m else put_label (trim_space k) (trim_space v) m

unfoldable pub add_pairs : List Bytes → Labels → Labels
add_pairs [] m = m
add_pairs (p ∷ ps) m = add_pairs ps (add_pair (cut b'=' p) m)

unfoldable pub parse_labels : Bytes → Labels
parse_labels [] = []
parse_labels (c ∷ raw) = add_pairs (split comma (c ∷ raw)) []

-- Float is the type of the failure rate; strconv.ParseFloat is a parameter.
pub record WorkerAgentConfig (Float : Type 0) : Type 0 where
  pub scheduler_grpc_addr : Bytes
  pub instance_id : Bytes
  pub hostname : Bytes
  pub os : Bytes
  pub cpu_cores : ℤ
  pub memory_mb : ℤ
  pub version : Bytes
  pub capacity_slots : ℤ
  pub labels : Labels
  pub capabilities : List Bytes
  pub simulated_failure_rate : Float
  pub tls_cert_file : Bytes
  pub tls_key_file : Bytes
  pub tls_ca_file : Bytes

abbrev pub or_unknown : Option Bytes → Bytes
or_unknown none = codes "unknown-host"
or_unknown (some name) = name

module _ {Float : Type 0} (parse_float : Bytes → Option Float) (default_rate : Float) where
  unfoldable pub float_of : Option Float → Loaded Float
  float_of none = failed (invalid_float "FLEETFORGE_SIMULATED_FAILURE_RATE")
  float_of (some rate) = loaded rate

  unfoldable pub failure_rate : Env → Loaded Float
  failure_rate env =
      if is_empty (env "FLEETFORGE_SIMULATED_FAILURE_RATE")
      then loaded default_rate
      else float_of (parse_float (env "FLEETFORGE_SIMULATED_FAILURE_RATE"))

  -- `hostname` is what os.Hostname returns, `none` its error; `default_rate` is 0.15.
  unfoldable pub load_worker_agent_config : Option Bytes → Env → Loaded (WorkerAgentConfig Float)
  load_worker_agent_config hostname env = do
    _ ← reject_if (is_empty (env "FLEETFORGE_INSTANCE_ID")) (is_required "FLEETFORGE_INSTANCE_ID")
    cpu_cores ← get_env_int_default env "FLEETFORGE_CPU_CORES" (pos 0)
    _ ← reject_if (leb_ℤ cpu_cores (pos 0)) (not_positive "FLEETFORGE_CPU_CORES")
    memory_mb ← get_env_int_default env "FLEETFORGE_MEMORY_MB" (pos 0)
    _ ← reject_if (leb_ℤ memory_mb (pos 0)) (not_positive "FLEETFORGE_MEMORY_MB")
    capacity_slots ← get_env_int_default env "FLEETFORGE_CAPACITY_SLOTS" (pos 1)
    rate ← failure_rate env
    loaded (record {
      scheduler_grpc_addr =
          get_env_default env "FLEETFORGE_SCHEDULER_ADDR" (codes "localhost:9090");
      instance_id = env "FLEETFORGE_INSTANCE_ID";
      hostname = get_env_default env "FLEETFORGE_HOSTNAME" (or_unknown hostname);
      os = get_env_default env "FLEETFORGE_OS" (codes "linux/amd64");
      cpu_cores = cpu_cores;
      memory_mb = memory_mb;
      version = get_env_default env "FLEETFORGE_AGENT_VERSION" (codes "0.1.0");
      capacity_slots = capacity_slots;
      labels = parse_labels (env "FLEETFORGE_LABELS");
      capabilities = parse_list (env "FLEETFORGE_CAPABILITIES");
      simulated_failure_rate = rate;
      tls_cert_file = env "FLEETFORGE_TLS_CERT_FILE";
      tls_key_file = env "FLEETFORGE_TLS_KEY_FILE";
      tls_ca_file = env "FLEETFORGE_TLS_CA_FILE";
    })
