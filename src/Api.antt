-- ===== src/Api.antt =====
-- internal/api: the REST surface.
pub mod Handlers
pub mod Listing
pub mod Router
pub mod Guarded
