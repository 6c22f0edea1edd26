-- ===== src/WorkerStore.antt =====
-- WorkerStore, internal/store/postgres/workers.go: the statements against the workers table.
pub mod Register
pub mod Liveness
pub mod Assign
pub mod Drain
pub mod Assigning
pub mod Exclusive
pub mod Draining
pub mod Idle
pub mod Superseding
pub mod Reaping
