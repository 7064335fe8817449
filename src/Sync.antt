-- ===== src/Sync.antt =====
-- The package internal/fetch/sync: where blocks come from.
pub mod Chunks
pub mod Stored
pub mod Store
pub mod Node
pub mod Iterate
pub mod CatchUp
pub mod KeepInSync
