-- ===== src/Deployment/Startup.antt =====
-- How a scheduler starts, main of cmd/scheduler/main.go with NewPool, NewClient and
-- EnsureConsumerGroups of internal/store. Postgres, Redis and the listener are parameters.
use fleetforge.Base.{
  ℕ, ◌*◌, Bool, true, false, ◌&&◌, ◌||◌, ◌==◌, Option, none, some, List, [], ◌∷◌, if◌then◌else◌,
}
use fleetforge.Base.Int.{ℤ}
use fleetforge.Base.Bytes.{Bytes, codes}
use fleetforge.Base.Checked.{Checked, passed, refused, ◌>>=◌, or_refused, check}
use fleetforge.JobStore.Backoff.{second}
use fleetforge.Config.Load.{Loaded, loaded, failed, ConfigError, SchedulerConfig}
use fleetforge.Auth.Mtls.{Files, TlsConfig, TlsError, server_tls_config}
use fleetforge.Agent.Startup.{wants_tls, to_int32}

-- strings.Contains.
unfoldable pub has_prefix : Bytes → Bytes → Bool
has_prefix [] s = true
has_prefix (c ∷ t) [] = false
has_prefix (c ∷ t) (d ∷ s) = c == d && has_prefix t s

unfoldable pub contains : Bytes → Bytes → Bool
unfolding has_prefix
contains [] t = has_prefix t []
contains (c ∷ s) t = has_prefix t (c ∷ s) || contains s t

unfoldable pub is_busy_group_err : Bytes → Bool
is_busy_group_err text = contains text (codes "BUSYGROUP")

-- What the scheduler starts on: pgxpool, go-redis and net; `none` is an error. `create_group` is
-- XGROUP CREATE with MKSTREAM on the stream of a priority: the text of its error, if any, and the
-- streams after it.
pub record Machine : Type 1 where
  pub PoolConfig : Type 0
  pub Pool : Type 0
  pub parse_config : Bytes → Option PoolConfig
  pub with_limits : (max_conns max_conn_lifetime : ℕ) → PoolConfig → PoolConfig
  pub new_with_config : PoolConfig → Option Pool
  pub ping_pool : Pool → Bool
  pub Client : Type 0
  pub client_of : Bytes → Client
  pub ping_client : Client → Bool
  pub Streams : Type 0
  pub create_group : Client → ℕ → Streams → Option Bytes × Streams
  pub files : Files
  pub listen : Bytes → Bool

-- Why log.Fatal ends the process.
pub data Fatal : Type 0 where
  invalid_config : ConfigError → Fatal
  bad_database_url no_pool postgres_unreachable redis_unreachable not_bound : Fatal
  no_group : (priority : ℕ) → Fatal
  no_tls_config : TlsError → Fatal

pub data Credentials (files : Files) : Type 0 where
  insecure : Credentials files
  tls : TlsConfig files → Credentials files

-- The priorities of the loop of EnsureConsumerGroups.
abbrev pub group_priorities : List ℕ
group_priorities = 0 ∷ 1 ∷ 2 ∷ 3 ∷ 4 ∷ 5 ∷ 6 ∷ 7 ∷ 8 ∷ 9 ∷ []

abbrev pub max_conns : ℕ
max_conns = 20

abbrev pub max_conn_lifetime : ℕ
max_conn_lifetime = 30 * 60 * second

-- The error of the authentication package, logged with the same message.
unfoldable pub or_fatal {ℓ} : {A : Type ℓ} → Checked TlsError A → Checked Fatal A
or_fatal (passed a) = passed a
or_fatal (refused e) = refused (no_tls_config e)

module _ (machine : Machine) where
  open machine use {
    PoolConfig, Pool, parse_config, with_limits, new_with_config, ping_pool, Client, client_of,
    ping_client, Streams, create_group, files, listen,
  }

  unfoldable pub new_pool : Bytes → Checked Fatal Pool
  new_pool url = do
    cfg ← or_refused bad_database_url (parse_config url)
    pool ← or_refused no_pool (new_with_config (with_limits max_conns max_conn_lifetime cfg))
    _ ← check (ping_pool pool) postgres_unreachable
    passed pool

  unfoldable pub new_client : Bytes → Checked Fatal Client
  new_client addr = do
    _ ← check (ping_client (client_of addr)) redis_unreachable
    passed (client_of addr)

  unfoldable pub group_created : ℕ → Option Bytes × Streams → Checked Fatal Streams
  group_created p (none, st) = passed st
  group_created p (some text, st) =
      if is_busy_group_err text then passed st else refused (no_group p)

  -- The streams that a failed start leaves behind are not kept.
  unfoldable pub ensure_groups : Client → List ℕ → Streams → Checked Fatal Streams
  ensure_groups client [] st = passed st
  ensure_groups client (p ∷ ps) st = do
    st' ← group_created p (create_group client p st)
    ensure_groups client ps st'

  unfoldable pub ensure_consumer_groups : Client → Streams → Checked Fatal Streams
  unfolding ensure_groups
  ensure_consumer_groups client st = ensure_groups client group_priorities st

  unfoldable pub server_credentials : SchedulerConfig → Checked Fatal (Credentials files)
  server_credentials c =
      if wants_tls c.tls_cert_file c.tls_key_file c.tls_ca_file
      then (do
        config ← or_fatal (server_tls_config files c.tls_cert_file c.tls_key_file c.tls_ca_file)
        passed (tls config))
      else passed insecure

  -- What the servers and the reaper of a scheduler that has started work with.
  pub record Started : Type 0 where
    pub pool : Pool
    pub client : Client
    pub streams : Streams
    pub credentials : Credentials files
    pub grpc_interval_seconds : ℤ
    pub grpc_timeout_seconds : ℤ
    pub reaper_timeout_seconds : ℤ
    pub jwt_secret : Bytes

  unfoldable pub start_with : SchedulerConfig → Streams → Checked Fatal Started
  start_with c st = do
    pool ← new_pool c.database_url
    client ← new_client c.redis_addr
    streams ← ensure_consumer_groups client st
    credentials ← server_credentials c
    _ ← check (listen c.grpc_addr) not_bound
    passed (record {
      pool = pool;
      client = client;
      streams = streams;
      credentials = credentials;
      grpc_interval_seconds = to_int32 c.heartbeat_interval_seconds;
      grpc_timeout_seconds = to_int32 c.heartbeat_timeout_seconds;
      reaper_timeout_seconds = c.heartbeat_timeout_seconds;
      jwt_secret = c.jwt_secret;
    })

  unfoldable pub start_scheduler : Loaded SchedulerConfig → Streams → Checked Fatal Started
  start_scheduler (failed e) st = refused (invalid_config e)
  start_scheduler (loaded c) st = start_with c st
