-- ===== src/Scheduler.antt =====
-- internal/scheduler: matching, the sweeps, leader election and the autoscaler.
pub mod Select
pub mod LeastLoaded
pub mod Loop
pub mod Acknowledging
pub mod Matching
pub mod Reaching
pub mod Pacing
pub mod Sweeps
pub mod Requeueing
pub mod Autoscaler
pub mod Leader
pub mod Leadership
