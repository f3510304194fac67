-- ===== src/Peer.antt =====
-- Peers of the mesh: crates/hivebear-mesh/src/peer.rs, with the types that a `PeerInfo` holds. A
-- `NodeId` is its 32-byte public key, read as a number; a `Uuid` is its 128 bits, read as a number.
-- Of the hardware profile, `PeerInfo` keeps the memory bandwidth, the one field that the mesh reads.
use hive_bear.Prelude.{ℕ, ◌+◌, ◌%◌, ◌^◌, Option, List}
use hive_bear.Prelude.Text.{Text}
use hive_bear.Float.{Float}

abbrev pub NodeId : Type 0
NodeId = ℕ

abbrev pub Uuid : Type 0
Uuid = ℕ

pub data NatType : Type 0 where
  open_nat full_cone restricted_cone port_restricted symmetric unknown : NatType

pub data MeshTier : Type 0 where
  free paid : MeshTier

pub record DraftCapability (fl : Float) : Type 0 where
  pub draft_model_id : Text
  pub draft_model_size_bytes : ℕ
  pub estimated_draft_tok_s : fl.F64

pub record PeerInfo (fl : Float) : Type 0 where
  pub node_id : NodeId
  pub estimated_bandwidth_gbps : fl.F64
  pub available_memory_bytes : ℕ
  pub available_vram_bytes : ℕ
  pub network_bandwidth_mbps : fl.F64
  pub latency_ms : Option fl.F64
  pub tier : MeshTier
  pub reputation_score : fl.F64
  pub addr : Text
  pub external_addr : Option Text
  pub nat_type : NatType
  pub latency_map : List (NodeId × fl.F64)
  pub serving_model_id : Option Text
  pub swarm_id : Option Uuid
  pub draft_capability : Option (DraftCapability fl)

-- `available_vram_bytes + available_memory_bytes`, on `u64`.
unfoldable pub capacity : {fl : Float} → PeerInfo fl → ℕ
capacity p = (p.available_vram_bytes + p.available_memory_bytes) % 2 ^ 64
