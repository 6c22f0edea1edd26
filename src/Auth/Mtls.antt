-- ===== src/Auth/Mtls.antt =====
-- The TLS configurations of internal/auth/mtls.go. The files, X.509 and PEM are parameters.
use fleetforge.Base.{ℕ, Option, none, some}
use fleetforge.Base.Bytes.{Bytes}
use fleetforge.Base.Checked.{Checked, passed, ◌>>=◌, or_refused}

-- tls.LoadX509KeyPair, os.ReadFile, and AppendCertsFromPEM of a new pool, which yields none if the
-- text has no certificate.
pub record Files : Type 1 where
  pub KeyPair : Type 0
  pub CertPool : Type 0
  pub load_key_pair : (cert key : Bytes) → Option KeyPair
  pub read_file : Bytes → Option Bytes
  pub append_certs_from_pem : Bytes → Option CertPool

pub data TlsError : Type 0 where
  no_key_pair no_ca_file no_certificates : TlsError

-- The values of tls.ClientAuthType that the program uses; the first is the zero value.
pub data ClientAuth : Type 0 where
  no_client_cert require_and_verify_client_cert : ClientAuth

-- tls.VersionTLS12, 0x0303.
abbrev pub version_tls12 : ℕ
version_tls12 = 771

module _ (files : Files) where
  open files use {KeyPair, CertPool, load_key_pair, read_file, append_certs_from_pem}

  -- The fields of tls.Config that the program sets.
  pub record TlsConfig : Type 0 where
    pub certificate : KeyPair
    pub client_cas : Option CertPool
    pub client_auth : ClientAuth
    pub root_cas : Option CertPool
    pub min_version : ℕ

  unfoldable pub load_ca_pool : Bytes → Checked TlsError CertPool
  load_ca_pool ca_file = do
    pem ← or_refused no_ca_file (read_file ca_file)
    or_refused no_certificates (append_certs_from_pem pem)

  unfoldable pub server_tls_config : (cert key ca : Bytes) → Checked TlsError TlsConfig
  server_tls_config cert key ca = do
    pair ← or_refused no_key_pair (load_key_pair cert key)
    ca_pool ← load_ca_pool ca
    passed (record {
      certificate = pair;
      client_cas = some ca_pool;
      client_auth = require_and_verify_client_cert;
      root_cas = none;
      min_version = version_tls12;
    })

  unfoldable pub client_tls_config : (cert key ca : Bytes) → Checked TlsError TlsConfig
  client_tls_config cert key ca = do
    pair ← or_refused no_key_pair (load_key_pair cert key)
    ca_pool ← load_ca_pool ca
    passed (record {
      certificate = pair;
      client_cas = none;
      client_auth = no_client_cert;
      root_cas = some ca_pool;
      min_version = version_tls12;
    })
