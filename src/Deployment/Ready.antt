-- ===== src/Deployment/Ready.antt =====
-- What a scheduler has when it serves, cmd/scheduler/main.go.
use fleetforge.Base.{ℕ, ◌≡◌, ◌⊎◌, true, false, some}
use mathlib.Core.List.{Memᴰ}
use fleetforge.Base.Bytes.{Bytes}
use fleetforge.Base.Checked.{Checked}
use fleetforge.Config.Load.{SchedulerConfig}
use fleetforge.Config.Usable.{IsUsable}
use fleetforge.RedisStore.Queue.{priorities}
use fleetforge.Auth.Mtls.{Files, TlsConfig, require_and_verify_client_cert, version_tls12}
use fleetforge.Agent.Startup.{wants_tls}
use fleetforge.Deployment.Groups.{HasGroups}
use fleetforge.Deployment.Startup.{Machine, Started, Credentials, insecure, tls}

-- The credentials ask every client for a certificate that the pool of the CA file verifies.
pub data IsMutual {files : Files} : Credentials files → Type 0 where
  verifies :
      (t : TlsConfig files) (ca_pool : files.CertPool)
      → t.client_auth ≡ require_and_verify_client_cert
      → t.client_cas ≡ some ca_pool
      → t.min_version ≡ version_tls12
      → IsMutual (tls t)

module _ (machine : Machine) where
  open machine use {
    Pool, Client, Streams, create_group, files, ping_pool, client_of, ping_client, listen,
  }

  -- The credentials are as configured: a mutual TLS configuration if the three files are named.
  pub AsConfigured : SchedulerConfig → Credentials files → Type 0
  AsConfigured c credentials =
      let wants = wants_tls c.tls_cert_file c.tls_key_file c.tls_ca_file in
      ((wants ≡ true) × IsMutual credentials) ⊎ ((wants ≡ false) × (credentials ≡ insecure))

  -- What a scheduler that serves has: a usable configuration, connections that were answered, the
  -- consumer group of every stream that the matching loop reads, and the configured credentials.
  pub record IsReady (laws : HasGroups machine) (c : SchedulerConfig) (s : Started machine)
      : Type 0 where
    pub usable : IsUsable c
    pub postgres : ping_pool s.pool ≡ true
    pub redis : ping_client s.client ≡ true
    pub groups : (p : ℕ) → Memᴰ p priorities → laws.Exists s.client p s.streams
    pub credentials : AsConfigured c s.credentials
    pub bound : listen c.grpc_addr ≡ true
