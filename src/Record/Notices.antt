-- ===== src/Record/Notices.antt =====
-- The events that become rows and leave the depths alone.
pub mod Nodes
pub mod Outbounds
pub mod Transfers
pub mod Accounts
