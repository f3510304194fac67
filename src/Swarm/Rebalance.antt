-- ===== src/Swarm/Rebalance.antt =====
-- Rebalancing a swarm after a membership change: crates/hivebear-mesh/src/swarm/rebalance.rs.
pub mod Spread
pub mod Leader
use hive_bear.Prelude.{
  ℕ, zero, suc, ◌+◌, ◌-◌, Bool, true, false, not, ◌&&◌, ◌||◌, Option, none, some, List, [], ◌∷◌,
  length, ltb, leb, ◌==◌, if◌then◌else◌,
}
use hive_bear.Prelude.Text.{codes}
use hive_bear.Float.{Float}
use hive_bear.MeshError.{MeshError, Result, ok, err}
use hive_bear.Peer.{NodeId}
use hive_bear.Scheduler.{Range, share_of}
use hive_bear.Swarm.{
  SwarmRole, SwarmStatus, SwarmMember, SwarmDefinition, min_swarm_size, is_leader, is_standby,
  active_members, active_member_count, find_leader, active_capacity, recalculate_capacity,
}

pub data RebalanceReason : Type 0 where
  member_left member_failed member_joined : NodeId → RebalanceReason

pub data RebalanceAction : Type 0 where
  redistributed : List (NodeId × Range) → RebalanceAction
  standby_promoted : NodeId → List (NodeId × Range) → RebalanceAction
  disbanded : RebalanceAction

-- The index of the standby after the removal: one less if the departed member stood before it.
unfoldable pub adjusted_index : Option ℕ → ℕ → ℕ
adjusted_index none standby_idx = standby_idx
adjusted_index (some d) standby_idx = if ltb d standby_idx then standby_idx - 1 else standby_idx

module _ {fl : Float} where
  -- Whether no member of the list is active.
  abbrev pub none_active : List (SwarmMember fl) → Bool
  none_active [] = true
  none_active (m ∷ ms) = is_standby m.role && none_active ms

  -- The loop of `redistribute_layers`, over the members with those on standby passed over: the members
  -- with their new ranges, and the new assignments. `break` leaves the members that follow as they are.
  unfoldable pub spread :
      ℕ → ℕ → List (SwarmMember fl) → ℕ → List (SwarmMember fl) × List (NodeId × Range)
  spread total_capacity total_layers [] cursor = ([], [])
  spread total_capacity total_layers (m ∷ ms) cursor =
      let share =
        share_of fl 1 total_capacity total_layers m.capacity_bytes (none_active ms) cursor in
      let range : Range = record { first = cursor; stop = cursor + share } in
      let stop = if is_standby m.role then cursor else cursor + share in
      let rest = spread total_capacity total_layers ms stop in
      if is_standby m.role
      then (m ∷ rest.0, rest.1)
      else if leb total_layers cursor
      then (m ∷ ms, [])
      else (record m { assigned_layers = range } ∷ rest.0, (m.peer_id, range) ∷ rest.1)

  unfoldable pub redistribute_layers :
      SwarmDefinition fl → ℕ → SwarmDefinition fl × Result RebalanceAction
  unfolding spread
  redistribute_layers swarm total_layers =
      let total_capacity = active_capacity swarm.members in
      let (members, assignments) = spread total_capacity total_layers swarm.members 0 in
      if none_active swarm.members
      then (record swarm { status = SwarmStatus.disbanded }, ok disbanded)
      else if total_capacity == 0
      then (swarm, err (MeshError.scheduling (codes "No capacity available")))
      else (
        recalculate_capacity (record swarm { members = members }),
        ok (redistributed assignments),
      )

  -- `iter().position`, `Vec::remove` and the assignment of a role at an index.
  unfoldable pub position : (SwarmMember fl → Bool) → List (SwarmMember fl) → Option ℕ
  position p [] = none
  position p (m ∷ ms) =
      let rest : Option ℕ = elim (position p ms) [ none ↦ none | some i ↦ some (suc i) ] in
      if p m then some 0 else rest

  unfoldable pub remove_at : ℕ → List (SwarmMember fl) → List (SwarmMember fl)
  remove_at i [] = []
  remove_at zero (m ∷ ms) = ms
  remove_at (suc i) (m ∷ ms) = m ∷ remove_at i ms

  unfoldable pub set_role : ℕ → SwarmRole → List (SwarmMember fl) → List (SwarmMember fl)
  set_role i role [] = []
  set_role zero role (m ∷ ms) = record m { role = role } ∷ ms
  set_role (suc i) role (m ∷ ms) = m ∷ set_role i role ms

  unfoldable pub peer_at : ℕ → List (SwarmMember fl) → Option NodeId
  peer_at i [] = none
  peer_at zero (m ∷ ms) = some m.peer_id
  peer_at (suc i) (m ∷ ms) = peer_at i ms

  abbrev pub has_no_leader : List (SwarmMember fl) → Bool
  has_no_leader [] = true
  has_no_leader (m ∷ ms) = not (is_leader m.role) && has_no_leader ms

  -- A redistribution after the promotion reports the promoted peer.
  unfoldable pub report_promotion :
      NodeId
      → SwarmDefinition fl × Result RebalanceAction
      → SwarmDefinition fl × Result RebalanceAction
  report_promotion peer (swarm, ok (redistributed assignments)) =
      (swarm, ok (standby_promoted peer assignments))
  report_promotion peer (swarm, other) = (swarm, other)

  -- The end of `handle_member_departure`, where no standby was promoted.
  unfoldable pub without_standby :
      SwarmDefinition fl → Bool → ℕ → SwarmDefinition fl × Result RebalanceAction
  without_standby swarm needs_new_leader total_layers =
      let members =
        if needs_new_leader then set_role 0 SwarmRole.leader swarm.members else swarm.members in
      let led = record swarm { members = members } in
      if ltb (active_member_count led) min_swarm_size
      then (record led { status = SwarmStatus.disbanded }, ok disbanded)
      else redistribute_layers (record led { status = SwarmStatus.degraded }) total_layers

  -- The promotion of the member at an index, if the index is in range.
  unfoldable pub promote :
      SwarmDefinition fl → ℕ → ℕ → Option NodeId → SwarmDefinition fl × Result RebalanceAction
  promote swarm idx total_layers none =
      without_standby swarm (has_no_leader swarm.members) total_layers
  promote swarm idx total_layers (some promoted) =
      let role = if has_no_leader swarm.members then SwarmRole.leader else SwarmRole.worker in
      report_promotion promoted (
        redistribute_layers (record swarm { members = set_role idx role swarm.members })
          total_layers)

  -- `handle_member_departure` after the removal.
  unfoldable pub after_removal :
      SwarmDefinition fl → Option ℕ → Option ℕ → ℕ → SwarmDefinition fl × Result RebalanceAction
  after_removal swarm none departed total_layers =
      without_standby swarm (has_no_leader swarm.members) total_layers
  after_removal swarm (some standby_idx) departed total_layers =
      let idx = adjusted_index departed standby_idx in
      promote swarm idx total_layers (peer_at idx swarm.members)

  unfoldable pub handle_member_departure :
      SwarmDefinition fl → NodeId → ℕ → SwarmDefinition fl × Result RebalanceAction
  unfolding after_removal
  handle_member_departure swarm peer total_layers =
      let standby_idx = position (λ m. is_standby m.role) swarm.members in
      let departed = position (λ m. m.peer_id == peer) swarm.members in
      let members : List (SwarmMember fl) = elim departed [
        | none ↦ swarm.members
        | some i ↦ remove_at i swarm.members
      ] in
      after_removal (record swarm { members = members }) standby_idx departed total_layers

  unfoldable rebalance :
      SwarmDefinition fl → RebalanceReason → ℕ → SwarmDefinition fl × Result RebalanceAction
  unfolding handle_member_departure redistribute_layers
  rebalance swarm (member_left peer) total_layers = handle_member_departure swarm peer total_layers
  rebalance swarm (member_failed peer) total_layers =
      handle_member_departure swarm peer total_layers
  rebalance swarm (member_joined peer) total_layers = redistribute_layers swarm total_layers
