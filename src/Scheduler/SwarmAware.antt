-- ===== src/Scheduler/SwarmAware.antt =====
-- `SwarmAwareScheduler`: crates/hivebear-mesh/src/scheduler/swarm_scheduler.rs.
pub mod Limits
use mathlib.Core.Path.{subst}
use hive_bear.Prelude.{
  ℕ, zero, suc, ◌+◌, ◌-◌, ◌*◌, ◌/◌, ◌%◌, ◌^◌, ◌≤◌, ◌<◌, ◌≡◌, ◌⊎◌, refl, Bool, true, false, ◌&&◌,
  none, some, List, [], ◌∷◌, arith, length, keep, take, ltb, ◌==◌, if◌then◌else◌, Bool-cases, inl,
  inr, min, length-take,
}
use hive_bear.Prelude.Sort.{sort_by}
use hive_bear.Prelude.Text.{Text, codes}
use hive_bear.Float.{Float}
use hive_bear.MeshError.{MeshError, Result, ok, err}
use hive_bear.Peer.{PeerInfo, capacity}
use hive_bear.Scheduler.{
  LayerAssignment, InferencePlan, ranks_first, total_capacity, throughput, share_of, is_nil,
  assignment_of, push_stage, assign_layers,
}
use hive_bear.Scheduler.Cover.{Covers, Succeeds, assign_layers-Follows, assign_layers-cursor}

pub record SwarmAwareScheduler (fl : Float) : Type 0 where
  pub max_pipeline_depth : ℕ
  pub min_layers_per_stage : ℕ
  pub max_hop_latency_ms : fl.F64

-- `new()`.
unfoldable pub default_scheduler : (fl : Float) → SwarmAwareScheduler fl
default_scheduler fl = record {
  max_pipeline_depth = 4;
  min_layers_per_stage = 4;
  max_hop_latency_ms = fl.literal 50 0;
}

-- The `while` loop that pops peers: how many of n peers it leaves. The product is on `u32`.
unfoldable pub stages : ℕ → ℕ → ℕ → ℕ
stages total_layers min_layers zero = zero
stages total_layers min_layers (suc n) =
    let fewer = stages total_layers min_layers n in
    if ltb 1 (suc n) && ltb total_layers (min_layers * suc n % 2 ^ 32) then fewer else suc n

module _ {fl : Float} where
  unfoldable pub close_enough : SwarmAwareScheduler fl → PeerInfo fl → Bool
  close_enough s p =
      fl.less_eq (elim p.latency_ms [ none ↦ fl.literal 10 0 | some l ↦ l ]) s.max_hop_latency_ms

  -- The number of peers after the check of the least number of layers for each stage.
  unfoldable pub stage_count : SwarmAwareScheduler fl → ℕ → ℕ → ℕ
  unfolding stages
  stage_count s total_layers n =
      if ltb total_layers (s.min_layers_per_stage * min n s.max_pipeline_depth % 2 ^ 32) && ltb 1 n
      then stages total_layers s.min_layers_per_stage n
      else n

  -- The peers that get layers: close enough, sorted, truncated, and reduced.
  unfoldable pub chosen : SwarmAwareScheduler fl → ℕ → List (PeerInfo fl) → List (PeerInfo fl)
  unfolding close_enough stage_count
  chosen s total_layers peers =
      let eligible =
        take s.max_pipeline_depth (sort_by ranks_first (keep (close_enough s) peers)) in
      take (stage_count s total_layers (length eligible)) eligible

  -- The slowest stage, by `f64::max` from 0, and the last hop.
  unfoldable slowest_stage : fl.F64 → List (LayerAssignment fl) → fl.F64
  slowest_stage acc [] = acc
  slowest_stage acc (a ∷ rest) =
      slowest_stage (if fl.less acc a.estimated_compute_ms then a.estimated_compute_ms else acc)
        rest

  unfoldable last_hop : fl.F64 → List (LayerAssignment fl) → fl.F64
  last_hop acc [] = acc
  last_hop acc (a ∷ rest) = last_hop a.estimated_transfer_ms rest

  unfoldable pub finish_plan : Text → ℕ → List (LayerAssignment fl) × ℕ → Result (InferencePlan fl)
  unfolding slowest_stage last_hop
  finish_plan model_id total_layers r =
      let latency = fl.add (slowest_stage (fl.literal 0 0) r.0) (last_hop (fl.literal 0 0) r.0) in
      if ltb r.1 total_layers
      then err (MeshError.scheduling (codes "Could only assign some layers"))
      else ok (record {
        model_id = model_id;
        total_layers = total_layers;
        assignments = r.0;
        estimated_latency_ms = latency;
        estimated_throughput_tok_s = throughput fl latency;
      })

  -- `plan`, from the chosen peers on.
  unfoldable pub plan_chosen :
      SwarmAwareScheduler fl → Text → ℕ → ℕ → List (PeerInfo fl) → Result (InferencePlan fl)
  unfolding finish_plan
  plan_chosen s model_id total_layers model_size_bytes used =
      let capacity = total_capacity used in
      if capacity == 0
      then err (MeshError.scheduling (codes "Peers have no available memory"))
      else finish_plan model_id total_layers (
          assign_layers s.min_layers_per_stage capacity total_layers
            (model_size_bytes / total_layers) used 0)

  unfoldable pub plan :
      SwarmAwareScheduler fl → Text → ℕ → ℕ → List (PeerInfo fl) → Result (InferencePlan fl)
  unfolding plan_chosen chosen
  plan s model_id total_layers model_size_bytes peers =
      if is_nil peers
      then err (MeshError.scheduling (codes "No peers available"))
      else if total_layers == 0
      then err (MeshError.scheduling (codes "Model has 0 layers"))
      else if is_nil (keep (close_enough s) peers)
      then err (MeshError.scheduling (codes "No peers with acceptable latency"))
      else plan_chosen s model_id total_layers model_size_bytes (chosen s total_layers peers)
