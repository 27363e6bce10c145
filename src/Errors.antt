-- ===== src/Errors.antt =====
-- The errors of the services: internal/semerr, internal/clouderr, internal/codeerr and internal/status,
-- which wrap one another in chains.
mod Tests
pub mod Codes
pub mod Chain
pub mod Fault
pub mod Semantic
pub mod Fields
pub mod Status
pub mod Compat
