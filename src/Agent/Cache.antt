-- ===== src/Agent/Cache.antt =====
-- The bounded cache with expiry (internal/agent/cache.go, type ttlCache). Each operation runs under
-- the mutex; `now` is what the cache's clock answers; `clone` is its optional copying function.
-- `Defs` holds the operations; the other children prove what a client may rely on.
pub mod Defs
pub mod Bound
pub mod Reads
