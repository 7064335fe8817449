-- ===== src/Timeseries.antt =====
-- internal/timeseries: what is written for each block, and the state that it leaves in memory.
pub mod Median
pub mod DepthRecorder
pub mod Latest
pub mod Commit
pub mod Stat
