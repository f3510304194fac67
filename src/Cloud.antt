-- ===== src/Cloud.antt =====
-- The clients of cloud services: crates/hivebear-inference/src/engine/cloud.
pub mod Sse
