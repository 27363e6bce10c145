-- ===== src/Text.antt =====
-- Names and queries as text: internal/logfmt, internal/encodingtooling and internal/sqltooling.
-- Strings are lists of code points here.
mod Tests
pub mod Unicode
pub mod Snake
pub mod Camel
pub mod Query
