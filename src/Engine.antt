-- ===== src/Engine.antt =====
-- crates/protocol/src/lib.rs: `AnalysisEngine`, the state that a session's events are ingested into,
-- and the summaries that are read off it.
mod Tests
pub mod Ordered
pub mod Records
pub mod State
pub mod Pairing
pub mod Blocks
pub mod Ingest
pub mod Index
pub mod Evidence
pub mod Derived
pub mod Summary
pub mod Kept
pub mod Balance
pub mod Tallied
pub mod Live
pub mod Growth
pub mod Pairs
pub mod Positions
pub mod Found
pub mod Shared
pub mod Complete
pub mod Whole
pub mod Stages
pub mod Medians
pub mod Slow
