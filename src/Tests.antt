-- ===== src/Tests.antt =====
-- The theorems at concrete inputs.
mod Db
mod Record
mod Load
mod Messages
mod Blocks
mod Timeseries
mod Commit
mod Sync
mod Genesis
mod Stat
mod Mainnet
