-- ===== src/Rate.antt =====
-- internal/rate: fixed windows, and the limiter that keeps a list of them for each key.
mod Tests
pub mod Window
pub mod Limiter
