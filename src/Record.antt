-- ===== src/Record.antt =====
-- The package internal/fetch/record: events become rows and changes of the pools' depths.
pub mod Coin
pub mod Totals
pub mod ChainInfo
pub mod Events
pub mod Monad
pub mod Postings
pub mod Pools
pub mod Swaps
pub mod Notices
pub mod Withdrawals
pub mod Corrections
pub mod Process
pub mod Blocks
pub mod Load
pub mod Dispatch
pub mod Messages
pub mod Parents
pub mod Genesis
