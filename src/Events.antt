-- ===== src/Events.antt =====
-- The wire data of crates/protocol/src/lib.rs. Text is the list of its code points.
pub mod Block
pub mod Text
pub mod Names
pub mod File
pub mod Node
pub mod Pipeline
pub mod Completed
mod Tests
