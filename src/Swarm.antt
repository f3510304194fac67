-- ===== src/Swarm.antt =====
-- Swarms of peers that serve one model together: crates/hivebear-mesh/src/swarm/mod.rs.
pub mod Rebalance
pub mod Router
pub mod Formation
pub mod Speculative
mod Tests
use hive_bear.Prelude.{
  ℕ, zero, suc, ◌+◌, ◌%◌, ◌^◌, Bool, true, false, not, ◌&&◌, ◌||◌, Option, none, some, List, [],
  ◌∷◌, length, ltb, ◌==◌, if◌then◌else◌, keep,
}
use hive_bear.Prelude.Text.{Text}
use hive_bear.Float.{Float}
use hive_bear.Peer.{NodeId, Uuid}
use hive_bear.Scheduler.{Range, InferencePlan}

pub data SwarmRole : Type 0 where
  leader worker standby : SwarmRole

pub data SwarmStatus : Type 0 where
  forming ready busy degraded disbanded : SwarmStatus

pub record SwarmMember (fl : Float) : Type 0 where
  pub peer_id : NodeId
  pub role : SwarmRole
  pub assigned_layers : Range
  pub capacity_bytes : ℕ
  pub latency_to_leader_ms : fl.F64

pub record SwarmDefinition (fl : Float) : Type 0 where
  pub swarm_id : Uuid
  pub model_id : Text
  pub members : List (SwarmMember fl)
  pub pipeline_plan : Option (InferencePlan fl)
  pub aggregate_capacity_bytes : ℕ
  pub estimated_tok_s : fl.F64
  pub status : SwarmStatus
  pub created_at : ℕ

abbrev pub max_swarm_size : ℕ
max_swarm_size = 4

abbrev pub min_swarm_size : ℕ
min_swarm_size = 2

-- `matches!(role, Leader)`, `matches!(role, Standby)`.
abbrev pub is_leader : SwarmRole → Bool
is_leader SwarmRole.leader = true
is_leader SwarmRole.worker = false
is_leader SwarmRole.standby = false

abbrev pub is_standby : SwarmRole → Bool
is_standby SwarmRole.leader = false
is_standby SwarmRole.worker = false
is_standby SwarmRole.standby = true

unfoldable may_accept : SwarmStatus → Bool
may_accept SwarmStatus.forming = true
may_accept SwarmStatus.ready = true
may_accept SwarmStatus.busy = false
may_accept SwarmStatus.degraded = true
may_accept SwarmStatus.disbanded = false

module _ {fl : Float} where
  unfoldable pub active_members : List (SwarmMember fl) → List (SwarmMember fl)
  active_members = keep (λ m. not (is_standby m.role))

  unfoldable pub active_member_count : SwarmDefinition fl → ℕ
  unfolding active_members
  active_member_count swarm = length (active_members swarm.members)

  unfoldable member_count : SwarmDefinition fl → ℕ
  member_count swarm = length swarm.members

  unfoldable pub find_leader : List (SwarmMember fl) → Option (SwarmMember fl)
  find_leader [] = none
  find_leader (m ∷ ms) = if is_leader m.role then some m else find_leader ms

  unfoldable leader_of : SwarmDefinition fl → Option (SwarmMember fl)
  unfolding find_leader
  leader_of swarm = find_leader swarm.members

  unfoldable any_member : NodeId → List (SwarmMember fl) → Bool
  any_member id [] = false
  any_member id (m ∷ ms) = m.peer_id == id || any_member id ms

  unfoldable has_member : SwarmDefinition fl → NodeId → Bool
  unfolding any_member
  has_member swarm id = any_member id swarm.members

  -- The capacities of the members that are not on standby, on `u64`.
  unfoldable pub active_capacity : List (SwarmMember fl) → ℕ
  active_capacity [] = 0
  active_capacity (m ∷ ms) =
      let rest = active_capacity ms in
      if is_standby m.role then rest else (m.capacity_bytes + rest) % 2 ^ 64

  unfoldable pub recalculate_capacity : SwarmDefinition fl → SwarmDefinition fl
  unfolding active_capacity
  recalculate_capacity swarm = record swarm {
    aggregate_capacity_bytes = active_capacity swarm.members;
  }

  unfoldable can_accept_member : SwarmDefinition fl → Bool
  unfolding member_count may_accept
  can_accept_member swarm = ltb (member_count swarm) max_swarm_size && may_accept swarm.status
