-- ===== src/RedisStore.antt =====
-- internal/store/redis: the worker-state cache and the job queue.
pub mod Cache
pub mod Queue
