-- ===== src/Auth.antt =====
-- internal/auth: the bearer tokens of the write endpoints and the TLS configurations.
pub mod Base64
pub mod Jwt
pub mod Mtls
pub mod RoundTrip
pub mod Soundness
