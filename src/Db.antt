-- ===== src/Db.antt =====
-- The package internal/db: event ids, time buckets, inserters.
pub mod EventId
pub mod Rows
pub mod Inserter
pub mod Buckets
