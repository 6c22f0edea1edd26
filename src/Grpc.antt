-- ===== src/Grpc.antt =====
-- internal/grpcserver: the control plane that the workers talk to.
pub mod Proto
pub mod Register
pub mod Heartbeat
pub mod Report
pub mod Fencing
pub mod Liveness
pub mod Superseding
pub mod Pending
pub mod Pushing
