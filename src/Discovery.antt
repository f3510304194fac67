-- ===== src/Discovery.antt =====
-- How peers are found: crates/hivebear-mesh/src/discovery.
pub mod Pex
mod Tests
