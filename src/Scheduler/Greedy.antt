-- ===== src/Scheduler/Greedy.antt =====
-- `GreedyScheduler`: crates/hivebear-mesh/src/scheduler/optimizer.rs.
use mathlib.Core.Path.{subst}
use hive_bear.Prelude.{
  ℕ, ◌/◌, ◌≤◌, ◌<◌, ◌≡◌, refl, false, List, [], ◌∷◌, arith, length, ltb, ◌==◌, if◌then◌else◌,
}
use hive_bear.Prelude.Sort.{sort_by, length-sort_by}
use hive_bear.Prelude.Text.{Text, codes}
use hive_bear.Float.{Float}
use hive_bear.MeshError.{MeshError, Result, ok, err}
use hive_bear.Peer.{PeerInfo}
use hive_bear.Scheduler.{
  LayerAssignment, InferencePlan, ranks_first, total_capacity, throughput, is_nil, assign_layers,
}
use hive_bear.Scheduler.Cover.{Covers, Succeeds, assign_layers-Follows, assign_layers-cursor}

module _ {fl : Float} where
  open fl use {literal, add}

  -- The sum of all stage costs.
  unfoldable total_latency : fl.F64 → List (LayerAssignment fl) → fl.F64
  total_latency acc [] = acc
  total_latency acc (a ∷ rest) =
      total_latency (add acc (add a.estimated_compute_ms a.estimated_transfer_ms)) rest

  -- The end of `plan`: the check that all layers are assigned, and the estimates.
  unfoldable pub finish_plan : Text → ℕ → List (LayerAssignment fl) × ℕ → Result (InferencePlan fl)
  unfolding total_latency throughput
  finish_plan model_id total_layers r =
      let latency = total_latency (literal 0 0) r.0 in
      if ltb r.1 total_layers
      then err (MeshError.scheduling (codes "Could only assign some layers"))
      else ok (record {
        model_id = model_id;
        total_layers = total_layers;
        assignments = r.0;
        estimated_latency_ms = latency;
        estimated_throughput_tok_s = throughput fl latency;
      })

  unfoldable pub plan : Text → ℕ → ℕ → List (PeerInfo fl) → Result (InferencePlan fl)
  unfolding finish_plan
  plan model_id total_layers model_size_bytes peers =
      let ranked = sort_by ranks_first peers in
      let capacity = total_capacity ranked in
      if is_nil peers
      then err (MeshError.scheduling (codes "No peers available"))
      else if total_layers == 0
      then err (MeshError.scheduling (codes "Model has 0 layers"))
      else if capacity == 0
      then err (MeshError.scheduling (codes "Peers have no available memory"))
      else finish_plan model_id total_layers
          (assign_layers 1 capacity total_layers (model_size_bytes / total_layers) ranked 0)

  finish_plan-Succeeds :
      (model_id : Text) (total_layers n : ℕ) (r : List (LayerAssignment fl) × ℕ)
      → r.1 ≡ total_layers
      → Covers 0 r.1 r.0
      → length r.0 ≤ n
      → Succeeds
          (λ p.
            Covers 0 total_layers p.assignments
            × (length p.assignments ≤ n)
            × (p.total_layers ≡ total_layers))
          (finish_plan model_id total_layers r)
  unfolding finish_plan
  finish_plan-Succeeds model_id total_layers n r e c le =
      let all_assigned : ltb r.1 total_layers ≡ false = ground arith in
      rw all_assigned (subst (λ t. Covers 0 t r.0) e c, le, refl)

  -- Planning for at least one peer with some capacity, and a model with layers, succeeds, whatever the
  -- floating-point rounding gives: the assigned ranges are not empty, follow one another from layer 0
  -- to the last layer without gap or overlap, and there are no more of them than peers.
  pub plan-Covers :
      (model_id : Text) (total_layers model_size_bytes : ℕ) (peers : List (PeerInfo fl))
      → 0 < total_layers
      → 0 < total_capacity (sort_by ranks_first peers)
      → Succeeds
          (λ p.
            Covers 0 total_layers p.assignments
            × (length p.assignments ≤ length peers)
            × (p.total_layers ≡ total_layers))
          (plan model_id total_layers model_size_bytes peers)
  unfolding plan
  plan-Covers model_id total_layers size [] h c =
      absurd (unfold total_capacity sort_by in omega (arith, c))
  plan-Covers model_id total_layers size (p ∷ ps) h c =
      planned (sort_by ranks_first (p ∷ ps)) (length-sort_by ranks_first (p ∷ ps)) c
    where
      planned :
          (ranked : List (PeerInfo fl))
          → length ranked ≡ length (p ∷ ps)
          → 0 < total_capacity ranked
          → Succeeds
              (λ q.
                Covers 0 total_layers q.assignments
                × (length q.assignments ≤ length (p ∷ ps))
                × (q.total_layers ≡ total_layers))
              (if total_layers == 0
                then err (MeshError.scheduling (codes "Model has 0 layers"))
                else if total_capacity ranked == 0
                then err (MeshError.scheduling (codes "Peers have no available memory"))
                else finish_plan model_id total_layers (
                    assign_layers 1
                      (total_capacity ranked)
                      total_layers
                      (size / total_layers)
                      ranked
                      0))
      planned [] e k = absurd (omega (arith, e))
      planned (q ∷ qs) e k =
          let cap = total_capacity (q ∷ qs) in
          let b = size / total_layers in
          let some_layers : (total_layers == 0) ≡ false = ground arith in
          let some_capacity : (cap == 0) ≡ false = ground (arith, k) in
          let v = assign_layers-Follows 1 cap total_layers b (q ∷ qs) 0 (omega arith) in
          rw (some_layers, some_capacity)
            (finish_plan-Succeeds model_id total_layers (length (p ∷ ps))
              (assign_layers 1 cap total_layers b (q ∷ qs) 0)
              (assign_layers-cursor 1 cap total_layers b q qs 0 (omega arith)) v.0
              (omega (arith, v.2)))
