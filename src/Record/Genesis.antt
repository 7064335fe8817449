-- ===== src/Record/Genesis.antt =====
-- internal/fetch/record/genesisrecord.go and genesis.go: the state that a chain begins with is recorded
-- as if it had come in events.
pub mod State
pub mod Records
pub mod Start
pub mod Depths
pub mod Loans
