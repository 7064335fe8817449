-- ===== src/Record/Load.antt =====
-- internal/fetch/record/event.go: how an event is read from its attributes. Each `LoadTendermint`
-- is a loop (`load_fee`) over the attributes, with a function for one of them (`fee_attribute`).
pub mod Reader
pub mod Texts
pub mod Pools
pub mod Amounts
pub mod Moves
pub mod Liquidity
pub mod Swaps
pub mod Withdrawals
pub mod Nodes
pub mod Outbounds
pub mod Scheduled
pub mod Transfers
pub mod Accounts
pub mod Contracts
