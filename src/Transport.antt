-- ===== src/Transport.antt =====
-- What crosses the wire between mesh peers: crates/hivebear-mesh/src/transport.
pub mod Half
pub mod Dtype
mod Tests
