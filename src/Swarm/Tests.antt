-- ===== src/Swarm/Tests.antt =====
-- The theorems on swarms and their router at concrete swarms.
use hive_bear.Prelude.{ℕ, ◌≡◌, refl, true, false, none, List, [], ◌∷◌, arith, ℕ_discrete}
use hive_bear.Prelude.Map.{lookup}
use hive_bear.Prelude.Text.{text_dec, codes}
use hive_bear.Float.{fixed_point}
use hive_bear.Peer.{NodeId}
use hive_bear.Swarm.{SwarmRole, SwarmStatus, SwarmMember, SwarmDefinition, active_capacity}
use hive_bear.Swarm.Rebalance.{position, redistribute_layers, handle_member_departure}
use hive_bear.Swarm.Rebalance.Spread.{Redistributes, redistribute_covers}
use hive_bear.Swarm.Rebalance.Leader.{leaderless, departure_leads}
use hive_bear.Swarm.Router.{
  SwarmLoad, QueuedRequest, SwarmRouter, or_empty, is_contributing, select_swarm,
}
use hive_bear.Swarm.Router.Select.{Chosen, select_swarm_admitted, select_swarm_best}

abbrev member : NodeId → SwarmRole → ℕ → SwarmMember fixed_point
member id role memory = record {
  peer_id = id;
  role = role;
  assigned_layers = record { first = 0; stop = 0 };
  capacity_bytes = memory;
  latency_to_leader_ms = 5000;
}

abbrev swarm : List (SwarmMember fixed_point) → SwarmDefinition fixed_point
swarm members = record {
  swarm_id = 70;
  model_id = codes "llama";
  members = members;
  pipeline_plan = none;
  aggregate_capacity_bytes = 0;
  estimated_tok_s = 20000;
  status = SwarmStatus.ready;
  created_at = 0;
}

abbrev led : List (SwarmMember fixed_point)
led =
    member 1 SwarmRole.leader 3000
    ∷ member 2 SwarmRole.worker 1000
    ∷ member 3 SwarmRole.standby 2000
    ∷ []

redistribute_covers_example : Redistributes (swarm led) 8 (redistribute_layers (swarm led) 8)
redistribute_covers_example =
    redistribute_covers (swarm led) 8 refl (unfold active_capacity in omega arith)

departure_leads_example : leaderless (handle_member_departure (swarm led) 1 8) ≡ false
departure_leads_example =
    departure_leads (swarm led) 1 8 (omega arith) (λ i e f. unfold position in ground (arith, e, f))

abbrev idle : SwarmLoad
idle = record { active_requests = 0; tokens_generated_total = 0; last_request_at = 0 }

abbrev routed : SwarmRouter fixed_point
routed = record {
  swarms = (codes "llama", swarm led ∷ []) ∷ [];
  load = (70, idle) ∷ [];
  queue = [];
  max_queue_depth = 100;
  max_requests_per_swarm = 2;
  contributing_peers = (9, true) ∷ [];
}

select_swarm_admitted_example :
    Chosen routed
      (λ a b. Unit)
      (codes "llama")
      (or_empty (lookup text_dec (codes "llama") routed.swarms))
      (select_swarm (codes "llama") 9 routed)
select_swarm_admitted_example =
    select_swarm_admitted routed (codes "llama") 9
      (unfold is_contributing lookup ℕ_discrete in refl)

select_swarm_best_example :
    Chosen routed
      (λ a b. fixed_point.less_eq a b ≡ true)
      (codes "llama")
      (or_empty (lookup text_dec (codes "llama") routed.swarms))
      (select_swarm (codes "llama") 9 routed)
select_swarm_best_example =
    select_swarm_best routed (codes "llama") 9 (λ x y h. ground (arith, h))
      (λ a b c h k. ground (arith, h, k)) (unfold is_contributing lookup ℕ_discrete in refl)

abbrev waiting : ℕ → QueuedRequest
waiting id = record { request_id = id; model_id = codes "llama"; queued_at = 10 }
