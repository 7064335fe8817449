-- ===== src/Record/Corrections/Tables.antt =====
-- The tables of corrections of the chain's first network.
pub mod Units
pub mod Liquidity
pub mod Pools
pub mod Balances
