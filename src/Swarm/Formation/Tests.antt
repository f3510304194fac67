-- ===== src/Swarm/Formation/Tests.antt =====
-- The theorems on the formation of swarms at concrete peers.
use hive_bear.Prelude.{ℕ, ◌*◌, ◌≡◌, refl, List, [], ◌∷◌, arith, map, ℕ_discrete}
use hive_bear.Prelude.Map.{lookup}
use hive_bear.Prelude.Sort.{sort_by, insert_by}
use hive_bear.Prelude.Text.{codes}
use hive_bear.Float.{fixed_point}
use hive_bear.MeshError.{Result, ok, err}
use hive_bear.Peer.{PeerInfo, capacity}
use hive_bear.Samples.{peer}
use hive_bear.Scheduler.{share_of, total_capacity}
use hive_bear.Swarm.{SwarmRole, recalculate_capacity, active_capacity}
use hive_bear.Swarm.Formation.Models.{
  ModelSizeClass, FormationConfig, gb, usable, best_model_for_capacity, largest, larger,
  classify_as_drafter,
}
use hive_bear.Swarm.Formation.Candidates.{
  gather, consider, all_close, within, matrix_get, pair_latency, or_unknown, first_measured,
}
use hive_bear.Swarm.Formation.Members.{assign_members, member_of, mark, leader_for, role_after}
use hive_bear.Swarm.Formation.{
  build_swarm, new_swarm, open_slot, form_swarms, FormationResult, form_from, form_at, try_form,
  with_model, too_few_layers, classify, place, open_peers,
}
use hive_bear.Swarm.Formation.Clique.{IsGroup, gather-IsGroup}
use hive_bear.Swarm.Formation.Matching.{IsBest, best_model_for_capacity-IsBest}
use hive_bear.Swarm.Formation.Placement.{Places, form_swarms-Places}
use hive_bear.Swarm.Formation.Shape.{AllFormed, IsFormed, form_swarms-IsFormed}

abbrev tiny : ModelSizeClass fixed_point
tiny = record {
  model_id = codes "tiny";
  display_name = codes "Tiny";
  size_bytes = 1 * gb;
  total_layers = 22;
  params_billions = 1100;
}

abbrev large : ModelSizeClass fixed_point
large = record {
  model_id = codes "large";
  display_name = codes "Large";
  size_bytes = 4 * gb;
  total_layers = 32;
  params_billions = 8000;
}

abbrev config : FormationConfig fixed_point
config = record {
  max_latency_ms = 50000;
  max_pipeline_depth = 4;
  min_layers_per_stage = 4;
  min_peer_capacity_bytes = 2 * gb;
  min_drafter_capacity_bytes = 512 * 1024 * 1024;
}

-- Three strong peers, one that can draft, one that is too weak.
abbrev peers : List (PeerInfo fixed_point)
peers = peer 1 (4 * gb) ∷ peer 2 (2 * gb) ∷ peer 3 (3 * gb) ∷ peer 4 (1 * gb) ∷ peer 5 1000 ∷ []

form_swarms-Places_example :
    Places 3 peers (form_swarms (λ i. i) 100 peers config (tiny ∷ large ∷ []))
form_swarms-Places_example = form_swarms-Places 3 (λ i. i) 100 peers config (tiny ∷ large ∷ [])

form_swarms-IsFormed_example :
    AllFormed
      (IsFormed config (tiny ∷ large ∷ []))
      (form_swarms (λ i. i) 100 peers config (tiny ∷ large ∷ []))
form_swarms-IsFormed_example =
    form_swarms-IsFormed (λ i. i) 100 peers config (tiny ∷ large ∷ []) (omega arith)
      (omega arith, (omega arith, tt))

gather-IsGroup_example :
    IsGroup config
      (0, peer 1 (4 * gb))
      (gather config 0 (map open_slot peers) 0 ((0, peer 1 (4 * gb)) ∷ []))
gather-IsGroup_example = gather-IsGroup config 0 (0, peer 1 (4 * gb)) (map open_slot peers) 0

best_model_for_capacity-IsBest_example :
    IsBest
      (usable fixed_point (9 * gb))
      (tiny ∷ large ∷ [])
      (best_model_for_capacity (9 * gb) (tiny ∷ large ∷ []))
best_model_for_capacity-IsBest_example = best_model_for_capacity-IsBest (9 * gb) (tiny ∷ large ∷ [])

-- The ranges and roles of a result's swarms.
abbrev shares : Result (FormationResult fixed_point) → List (List (ℕ × SwarmRole × ℕ × ℕ))
shares (ok r) =
    map
      (λ s.
        map (λ m. (m.peer_id, m.role, m.assigned_layers.first, m.assigned_layers.stop)) s.members)
      r.swarms
shares (err e) = []

-- The strongest peer leads, and the layers follow the capacities.
three_peers :
    shares (form_swarms (λ i. i) 100 peers config (tiny ∷ large ∷ []))
    ≡ ((1, SwarmRole.leader, 0, 14)
        ∷ (3, SwarmRole.worker, 14, 25)
        ∷ (2, SwarmRole.worker, 25, 32)
        ∷ [])
      ∷ []
unfolding form_swarms classify classify_as_drafter place form_from form_at try_form with_model
    too_few_layers build_swarm new_swarm recalculate_capacity active_capacity sort_by insert_by
    gather consider all_close within matrix_get pair_latency or_unknown first_measured lookup
    ℕ_discrete assign_members member_of mark leader_for role_after share_of total_capacity capacity
    best_model_for_capacity usable largest larger open_peers
three_peers = refl

-- A swarm of one member: the rounded share of the first of two peers is every layer, and the second
-- gets none.
one_member :
    shares (form_swarms (λ i. i) 100 (peer 1 (127 * gb) ∷ peer 2 (2 * gb) ∷ []) config (tiny ∷ []))
    ≡ ((1, SwarmRole.leader, 0, 22) ∷ []) ∷ []
unfolding form_swarms classify classify_as_drafter place form_from form_at try_form with_model
    too_few_layers build_swarm new_swarm recalculate_capacity active_capacity sort_by insert_by
    gather consider all_close within matrix_get pair_latency or_unknown first_measured lookup
    ℕ_discrete assign_members member_of mark leader_for role_after share_of total_capacity capacity
    best_model_for_capacity usable largest larger open_peers
one_member = refl
