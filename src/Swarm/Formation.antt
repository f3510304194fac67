-- ===== src/Swarm/Formation.antt =====
-- The formation of swarms: crates/hivebear-mesh/src/swarm/formation.rs. A fresh `SwarmId` is `new_id` of the
-- round that draws it, `now` is the clock.
pub mod Models
pub mod Candidates
pub mod Members
pub mod Seats
pub mod Placement
pub mod Clique
pub mod Matching
mod Tests
pub mod Ranges
pub mod Shape
use hive_bear.Prelude.{
  ℕ, zero, suc, ◌+◌, ◌*◌, ◌%◌, ◌^◌, Bool, true, false, not, ◌&&◌, ◌||◌, Option, none, some, List,
  [], ◌∷◌, ◌++◌, map, length, get_elem?, keep, ltb, leb, ◌==◌, if◌then◌else◌, min, ℕ_discrete,
}
use hive_bear.Prelude.Map.{lookup}
use hive_bear.Prelude.Sort.{sort_by}
use hive_bear.Prelude.Text.{Text, codes}
use hive_bear.Float.{Float}
use hive_bear.MeshError.{Result, ok}
use hive_bear.Peer.{NodeId, Uuid, DraftCapability, PeerInfo, capacity}
use hive_bear.Scheduler.{share_of, total_capacity, is_nil}
use hive_bear.Swarm.{
  SwarmRole, SwarmStatus, SwarmMember, SwarmDefinition, max_swarm_size, min_swarm_size,
  recalculate_capacity,
}
use hive_bear.Swarm.Formation.Models.{
  ModelSizeClass, FormationConfig, min_swarm_capacity_bytes, best_model_for_capacity,
  classify_as_drafter,
}
use hive_bear.Swarm.Formation.Candidates.{Slot, gather}
use hive_bear.Swarm.Formation.Members.{by_capacity, assign_members}

pub record FormationResult (fl : Float) : Type 0 where
  pub swarms : List (SwarmDefinition fl)
  pub drafters : List (NodeId × DraftCapability fl)
  pub unplaced : List NodeId

module _ {fl : Float} where
  open fl use {literal}

  -- `SwarmDefinition::new`, with the members of the new swarm.
  unfoldable pub new_swarm : Uuid → ℕ → Text → List (SwarmMember fl) → SwarmDefinition fl
  new_swarm id now model_id members = record {
    swarm_id = id;
    model_id = model_id;
    members = members;
    pipeline_plan = none;
    aggregate_capacity_bytes = 0;
    estimated_tok_s = literal 0 0;
    status = SwarmStatus.forming;
    created_at = now;
  }

  -- Whether the model has too few layers for the candidates, on `u32`.
  unfoldable pub too_few_layers : FormationConfig fl → ModelSizeClass fl → ℕ → Bool
  too_few_layers config model n =
      ltb model.total_layers
        (config.min_layers_per_stage * min (n % 2 ^ 32) min_swarm_size % 2 ^ 32)

  -- The swarm of the candidates and a model, and the slots after it.
  unfoldable pub build_swarm :
      FormationConfig fl
      → Uuid
      → ℕ
      → ModelSizeClass fl
      → List (ℕ × PeerInfo fl)
      → List (Slot fl)
      → SwarmDefinition fl × List (Slot fl)
  unfolding new_swarm
  build_swarm config id now model candidates slots =
      let total_cap = total_capacity (map (λ c. c.1) candidates) in
      let (members, after) =
        assign_members config.min_layers_per_stage total_cap model.total_layers none
          (sort_by by_capacity candidates) 0 slots in
      (recalculate_capacity (new_swarm id now model.model_id members), after)

  unfoldable pub with_model :
      FormationConfig fl
      → Uuid
      → ℕ
      → Option (ModelSizeClass fl)
      → List (ℕ × PeerInfo fl)
      → List (Slot fl)
      → List (SwarmDefinition fl) × List (Slot fl)
  with_model config id now none candidates slots = ([], slots)
  with_model config id now (some model) candidates slots =
      let (swarm, after) = build_swarm config id now model candidates slots in
      if too_few_layers config model (length candidates) then ([], slots) else (swarm ∷ [], after)

  -- The end of a round, from its candidates on: the swarm that it forms, if any, and the slots.
  unfoldable pub try_form :
      FormationConfig fl
      → List (ModelSizeClass fl)
      → Uuid
      → ℕ
      → List (ℕ × PeerInfo fl)
      → List (Slot fl)
      → List (SwarmDefinition fl) × List (Slot fl)
  try_form config models id now candidates slots =
      let combined = total_capacity (map (λ c. c.1) candidates) in
      if ltb (length candidates) min_swarm_size
      then ([], slots)
      else if ltb combined min_swarm_capacity_bytes
      then ([], slots)
      else with_model config id now (best_model_for_capacity combined models) candidates slots

  unfoldable pub form_at :
      FormationConfig fl
      → List (ModelSizeClass fl)
      → Uuid
      → ℕ
      → ℕ
      → Option (Slot fl)
      → List (Slot fl)
      → List (SwarmDefinition fl) × List (Slot fl)
  form_at config models id now i none slots = ([], slots)
  form_at config models id now i (some slot) slots =
      if slot.assigned
      then ([], slots)
      else try_form config models id now (gather config i slots 0 ((i, slot.peer) ∷ [])) slots

  -- The rounds i, i + 1, ..., i + n - 1.
  unfoldable pub form_from :
      FormationConfig fl
      → List (ModelSizeClass fl)
      → (ℕ → Uuid)
      → ℕ
      → ℕ
      → ℕ
      → List (Slot fl)
      → List (SwarmDefinition fl) × List (Slot fl)
  form_from config models new_id now zero i slots = ([], slots)
  form_from config models new_id now (suc n) i slots =
      let (formed, after) = form_at config models (new_id i) now i (get_elem? slots i) slots in
      let (later, final) = form_from config models new_id now n (suc i) after in
      (formed ++ later, final)

  -- The three classes of peers: eligible, drafters, too weak.
  unfoldable pub place :
      PeerInfo fl
      → Option (DraftCapability fl)
      → List (PeerInfo fl) × List (NodeId × DraftCapability fl) × List NodeId
      → List (PeerInfo fl) × List (NodeId × DraftCapability fl) × List NodeId
  place p none (eligible, drafters, weak) = (eligible, drafters, p.node_id ∷ weak)
  place p (some draft) (eligible, drafters, weak) = (eligible, (p.node_id, draft) ∷ drafters, weak)

  unfoldable pub classify :
      FormationConfig fl
      → List (PeerInfo fl)
      → List (PeerInfo fl) × List (NodeId × DraftCapability fl) × List NodeId
  classify config [] = ([], [], [])
  classify config (p ∷ ps) =
      let rest = classify config ps in
      if leb config.min_peer_capacity_bytes (capacity p)
      then (p ∷ rest.0, rest.1, rest.2)
      else place p (classify_as_drafter p config) rest

  abbrev pub open_slot : PeerInfo fl → Slot fl
  open_slot p = record { peer = p; assigned = false }

  -- The peers of the slots that are not assigned.
  unfoldable pub open_peers : List (Slot fl) → List NodeId
  open_peers [] = []
  open_peers (slot ∷ slots) =
      if slot.assigned then open_peers slots else slot.peer.node_id ∷ open_peers slots

  unfoldable pub form_swarms :
      (ℕ → Uuid)
      → ℕ
      → List (PeerInfo fl)
      → FormationConfig fl
      → List (ModelSizeClass fl)
      → Result (FormationResult fl)
  form_swarms new_id now peers config models =
      let (eligible, drafters, weak) = classify config peers in
      let sorted = sort_by (λ a b. leb (capacity b) (capacity a)) eligible in
      let (swarms, final) =
        form_from config models new_id now (length sorted) 0 (map open_slot sorted) in
      if is_nil peers
      then ok (record { swarms = []; drafters = []; unplaced = [] })
      else ok (record { swarms = swarms; drafters = drafters; unplaced = weak ++ open_peers final })
