-- ===== src/JobStore.antt =====
-- JobStore, internal/store/postgres/jobs.go: the statements against the jobs table.
pub mod Create
pub mod Backoff
pub mod Transitions
pub mod Delays
pub mod Once
pub mod Budget
pub mod Idempotent
