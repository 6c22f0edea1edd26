-- ===== src/Examples.antt =====
-- A small fleet, on which the theorems of the other files are applied.
pub mod Fleet
pub mod Stores
pub mod Services
pub mod Deployments
pub mod Lives
pub mod Returns
pub mod Clients
pub mod Replicas
