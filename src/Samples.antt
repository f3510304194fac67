-- ===== src/Samples.antt =====
-- Sample data that the tests share.
use hive_bear.Prelude.{ℕ, none, []}
use hive_bear.Prelude.Text.{codes}
use hive_bear.Float.{fixed_point}
use hive_bear.Peer.{NodeId, PeerInfo, NatType, MeshTier}

-- A peer with the given identity and memory.
abbrev pub peer : NodeId → ℕ → PeerInfo fixed_point
peer id memory = record {
  node_id = id;
  estimated_bandwidth_gbps = 50000;
  available_memory_bytes = memory;
  available_vram_bytes = 0;
  network_bandwidth_mbps = 100000;
  latency_ms = none;
  tier = MeshTier.free;
  reputation_score = 500;
  addr = codes "10.0.0.1:7878";
  external_addr = none;
  nat_type = NatType.unknown;
  latency_map = [];
  serving_model_id = none;
  swarm_id = none;
  draft_capability = none;
}
