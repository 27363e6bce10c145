-- ===== src/Rdb.antt =====
-- internal/rdb: text arrays of PostgreSQL.
mod Tests
pub mod Array
pub mod Retryable
pub mod Transaction
pub mod Query
pub mod Dsn
