-- ===== src/Scheduler/Tests.antt =====
-- A plan, and the theorems on the schedulers at concrete peers.
use hive_bear.Prelude.{ℕ, ◌*◌, ◌%◌, ◌^◌, ◌≤◌, ◌≡◌, ◌⊎◌, refl, List, [], ◌∷◌, arith, map, length}
use hive_bear.Prelude.Sort.{insert_by, sort_by}
use hive_bear.Prelude.Text.{codes}
use hive_bear.Float.{fixed_point}
use hive_bear.Peer.{PeerInfo, capacity}
use hive_bear.Samples.{peer}
use hive_bear.Scheduler.{
  Range, LayerAssignment, share_of, ranks_first, total_capacity, push_stage, assignment_of,
  assign_layers,
}
use hive_bear.Scheduler.Cover.{Covers, Succeeds}
use hive_bear.Scheduler.Greedy.{plan, plan-Covers}
use hive_bear.Scheduler.SwarmAware.{default_scheduler, chosen, plan_chosen}
use hive_bear.Scheduler.SwarmAware.Limits.{Good, chosen_limits, plan_chosen_covers}

abbrev two_peers : List (PeerInfo fixed_point)
two_peers = peer 1 1000 ∷ peer 2 3000 ∷ []

abbrev row : LayerAssignment fixed_point → ℕ × Range
row a = (a.peer_id, a.layer_range)

-- The larger peer gets three layers of four, and comes first.
greedy_run :
    map row (assign_layers 1 4000 4 100 (sort_by ranks_first two_peers) 0).0
    ≡ (2, record { first = 0; stop = 3 }) ∷ (1, record { first = 3; stop = 4 }) ∷ []
unfolding assign_layers sort_by insert_by ranks_first capacity share_of push_stage assignment_of
greedy_run = refl

plan-Covers_example :
    Succeeds
      (λ p. Covers 0 4 p.assignments × (length p.assignments ≤ 2) × (p.total_layers ≡ 4))
      (plan (codes "m") 4 400 two_peers)
plan-Covers_example =
    plan-Covers (codes "m") 4 400 two_peers (omega arith)
      (unfold total_capacity sort_by insert_by ranks_first capacity in omega arith)

plan_chosen_covers_example :
    Succeeds (Good 4 2) (plan_chosen (default_scheduler fixed_point) (codes "m") 4 400 two_peers)
plan_chosen_covers_example =
    plan_chosen_covers (default_scheduler fixed_point) (codes "m") 4 400 two_peers
      (unfold total_capacity capacity in omega arith)

chosen_limits_example :
    let s = default_scheduler fixed_point in
    let n = length (chosen s 6 two_peers) in
    (n ≤ s.max_pipeline_depth) × ((n ≤ 1) ⊎ (s.min_layers_per_stage * n % 2 ^ 32 ≤ 6))
chosen_limits_example = chosen_limits (default_scheduler fixed_point) 6 two_peers
