-- ===== src/Util.antt =====
-- The package internal/util.
pub mod Memo
pub mod Numbers
pub mod Text
pub mod Asset
