-- ===== src/Concurrent.antt =====
-- internal/concurrent: maps behind a lock, and the caches on them.
mod Tests
pub mod Cache
