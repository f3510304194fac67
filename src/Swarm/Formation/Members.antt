-- ===== src/Swarm/Formation/Members.antt =====
-- The layers of a new swarm's members: crates/hivebear-mesh/src/swarm/formation.rs.
use hive_bear.Prelude.{
  ℕ, zero, suc, ◌+◌, Bool, true, false, Option, none, some, List, [], ◌∷◌, leb, ◌==◌, if◌then◌else◌,
}
use hive_bear.Float.{Float}
use hive_bear.Peer.{PeerInfo, capacity}
use hive_bear.Scheduler.{share_of}
use hive_bear.Swarm.{SwarmRole, SwarmMember}
use hive_bear.Swarm.Formation.Candidates.{Slot, matrix_get}

unfoldable or_ten : (fl : Float) → Option fl.F64 → fl.F64
or_ten fl none = fl.literal 10 0
or_ten fl (some l) = l

module _ {fl : Float} where
  open fl use {literal}

  -- `assigned[i] = true`.
  unfoldable pub mark : ℕ → List (Slot fl) → List (Slot fl)
  mark i [] = []
  mark zero (slot ∷ slots) = record slot { assigned = true } ∷ slots
  mark (suc i) (slot ∷ slots) = slot ∷ mark i slots

  abbrev pub by_capacity : ℕ × PeerInfo fl → ℕ × PeerInfo fl → Bool
  by_capacity a b = leb (capacity b.1) (capacity a.1)

  -- The role of a member, and its latency to the leader: `none` stands for the leader itself.
  unfoldable pub role_after : Option (ℕ × PeerInfo fl) → SwarmRole
  role_after none = SwarmRole.leader
  role_after (some leader) = SwarmRole.worker

  unfoldable latency_to : Option (ℕ × PeerInfo fl) → ℕ × PeerInfo fl → fl.F64
  unfolding or_ten
  latency_to none c = literal 0 0
  latency_to (some leader) c = or_ten fl (matrix_get leader c)

  unfoldable pub member_of : Option (ℕ × PeerInfo fl) → ℕ × PeerInfo fl → ℕ → ℕ → SwarmMember fl
  unfolding role_after latency_to
  member_of leader c cursor share = record {
    peer_id = c.1.node_id;
    role = role_after leader;
    assigned_layers = record { first = cursor; stop = cursor + share };
    capacity_bytes = capacity c.1;
    latency_to_leader_ms = latency_to leader c;
  }

  abbrev pub none_left : List (ℕ × PeerInfo fl) → Bool
  none_left [] = true
  none_left (c ∷ cs) = false

  -- The first of the sorted candidates, for those that follow it.
  unfoldable pub leader_for : Option (ℕ × PeerInfo fl) → ℕ × PeerInfo fl → Option (ℕ × PeerInfo fl)
  leader_for none c = some c
  leader_for (some leader) c = some leader

  -- The loop that assigns layers to the sorted candidates: the members, and the slots after it.
  unfoldable pub assign_members :
      ℕ
      → ℕ
      → ℕ
      → Option (ℕ × PeerInfo fl)
      → List (ℕ × PeerInfo fl)
      → ℕ
      → List (Slot fl)
      → List (SwarmMember fl) × List (Slot fl)
  assign_members least total_cap total_layers leader [] cursor slots = ([], slots)
  assign_members least total_cap total_layers leader (c ∷ cs) cursor slots =
      let share = share_of fl least total_cap total_layers (capacity c.1) (none_left cs) cursor in
      let next = if share == 0 then slots else mark c.0 slots in
      let rest =
        assign_members least total_cap total_layers (leader_for leader c) cs (cursor + share)
          next in
      if share == 0 then rest else (member_of leader c cursor share ∷ rest.0, rest.1)
