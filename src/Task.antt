-- ===== src/Task.antt =====
-- The task processor: pkg/operator/task.
pub mod Track
pub mod Consensus
pub mod Process
pub mod Response
pub mod Check
pub mod Frames
pub mod Entries
mod Tests
