-- ===== src/Nat.antt =====
-- NAT traversal: crates/hivebear-mesh/src/nat/mod.rs. Sockets are not modelled.
pub mod Stun
use hive_bear.Prelude.{
  Bool, true, false, not, ◌&&◌, Option, none, some, List, [], ◌∷◌, if◌then◌else◌,
}
use hive_bear.Prelude.Text.{Text}
use hive_bear.Peer.{
  NatType, open_nat, full_cone, restricted_cone, port_restricted, symmetric, unknown,
}
use hive_bear.Nat.Stun.{Address}

pub record NatTraversal : Type 0 where
  pub external_addr : Option Address
  pub nat_type : NatType
  pub stun_servers : List Text
  pub relay_servers : List Text
  pub relay_enabled : Bool

pub data ConnectionStrategy : Type 0 where
  direct hole_punch relay : ConnectionStrategy

-- `new`.
unfoldable new_traversal : List Text → List Text → Bool → NatTraversal
new_traversal stun_servers relay_servers relay_enabled = record {
  external_addr = none;
  nat_type = unknown;
  stun_servers = stun_servers;
  relay_servers = relay_servers;
  relay_enabled = relay_enabled;
}

unfoldable no_servers : List Text → Bool
no_servers [] = true
no_servers (s ∷ ss) = false

-- `connect_strategy`, by the type of the NAT.
unfoldable strategy_for : NatType → Bool → List Text → ConnectionStrategy
unfolding no_servers
strategy_for open_nat relay_enabled servers = direct
strategy_for full_cone relay_enabled servers = hole_punch
strategy_for restricted_cone relay_enabled servers = hole_punch
strategy_for port_restricted relay_enabled servers = hole_punch
strategy_for unknown relay_enabled servers = hole_punch
strategy_for symmetric relay_enabled servers =
    if relay_enabled && not (no_servers servers) then relay else direct

unfoldable connect_strategy : NatTraversal → ConnectionStrategy
unfolding strategy_for
connect_strategy t = strategy_for t.nat_type t.relay_enabled t.relay_servers
