-- ===== src/Pipeline.antt =====
-- The running pipeline: crates/hivebear-mesh/src/pipeline.
pub mod Checkpoint
pub mod Health
mod Tests
