-- ===== src/Scheduler.antt =====
-- Plans that spread a model's layers over peers: crates/hivebear-mesh/src/scheduler/plan.rs, and what the
-- two schedulers beside it share (optimizer.rs, swarm_scheduler.rs).
pub mod Cover
pub mod Greedy
pub mod SwarmAware
mod Tests
use hive_bear.Prelude.{
  ℕ, ◌+◌, ◌-◌, ◌*◌, ◌%◌, ◌^◌, Bool, true, false, not, ◌&&◌, ◌||◌, Option, none, some, List, [], ◌∷◌,
  map, length, ltb, leb, ◌==◌, if◌then◌else◌, min, max,
}
use hive_bear.Prelude.Sort.{sort_by}
use hive_bear.Prelude.Text.{Text}
use hive_bear.Float.{Float}
use hive_bear.Peer.{NodeId, PeerInfo, capacity}

-- `Range<u32>`.
pub record Range : Type 0 where
  pub first : ℕ
  pub stop : ℕ

pub record LayerAssignment (fl : Float) : Type 0 where
  pub peer_id : NodeId
  pub layer_range : Range
  pub estimated_compute_ms : fl.F64
  pub estimated_transfer_ms : fl.F64

-- Without the random `session_id`.
pub record InferencePlan (fl : Float) : Type 0 where
  pub model_id : Text
  pub total_layers : ℕ
  pub assignments : List (LayerAssignment fl)
  pub estimated_latency_ms : fl.F64
  pub estimated_throughput_tok_s : fl.F64

-- The share of a peer: all that is left for the last one, else its part of the total capacity,
-- rounded, at least `least` and at most what is left.
unfoldable pub share_of : (fl : Float) → ℕ → ℕ → ℕ → ℕ → Bool → ℕ → ℕ
share_of fl least total_cap total_layers peer_capacity true cursor = total_layers - cursor
share_of fl least total_cap total_layers peer_capacity false cursor =
    min
      (max (round_u32 (mul (div (of_nat peer_capacity) (of_nat total_cap)) (of_nat total_layers)))
        least)
      (total_layers - cursor)
  where
    open fl use {of_nat, mul, div, round_u32}

-- Tokens per second, from a latency in milliseconds.
unfoldable pub throughput : (fl : Float) → fl.F64 → fl.F64
throughput fl latency =
    if less (literal 0 0) latency then div (literal 1000 0) latency else literal 0 0
  where
    open fl use {literal, div, less}

module _ {fl : Float} where
  open fl use {literal, of_nat, add, mul, div, less}

  unfoldable pipeline_order : InferencePlan fl → List NodeId
  pipeline_order plan =
      map (λ a. a.peer_id)
        (sort_by (λ a b. leb a.layer_range.first b.layer_range.first) plan.assignments)

  unfoldable find_assignment : NodeId → List (LayerAssignment fl) → Option (LayerAssignment fl)
  find_assignment id [] = none
  find_assignment id (a ∷ rest) = if a.peer_id == id then some a else find_assignment id rest

  unfoldable assignment_for : InferencePlan fl → NodeId → Option (LayerAssignment fl)
  unfolding find_assignment
  assignment_for plan id = find_assignment id plan.assignments

  unfoldable peer_count : InferencePlan fl → ℕ
  peer_count plan = length plan.assignments

  -- The comparison of `ranked_peers.sort_by`: the larger capacity first, then the better reputation.
  -- Reputations that do not compare count as equal.
  unfoldable pub ranks_first : PeerInfo fl → PeerInfo fl → Bool
  unfolding capacity
  ranks_first a b =
      ltb (capacity b) (capacity a)
      || capacity b == capacity a && not (less a.reputation_score b.reputation_score)

  -- The sum of the capacities, on `u64`.
  unfoldable pub total_capacity : List (PeerInfo fl) → ℕ
  unfolding capacity
  total_capacity [] = 0
  total_capacity (p ∷ ps) = (capacity p + total_capacity ps) % 2 ^ 64

  unfoldable compute_ms : ℕ → ℕ → PeerInfo fl → fl.F64
  compute_ms share bytes_per_layer peer =
      let bandwidth =
        if ltb 0 peer.available_vram_bytes then literal 200 0 else peer.estimated_bandwidth_gbps in
      mul (div (mul (of_nat share) (of_nat bytes_per_layer)) (mul bandwidth (literal 1000000000 0)))
        (literal 1000 0)

  unfoldable transfer_ms : PeerInfo fl → fl.F64
  transfer_ms peer =
      let bandwidth_bps = div (mul peer.network_bandwidth_mbps (literal 1000000 0)) (literal 8 0) in
      let latency : fl.F64 = elim peer.latency_ms [ none ↦ literal 10 0 | some l ↦ l ] in
      if less (literal 0 0) bandwidth_bps
      then add (mul (div (mul (literal 16 0) (literal 1024 0)) bandwidth_bps) (literal 1000 0))
          latency
      else latency

  abbrev pub is_nil : List (PeerInfo fl) → Bool
  is_nil [] = true
  is_nil (p ∷ ps) = false

  -- One round of the loop, before the later rounds: `break` at the end, `continue` on an empty share.
  unfoldable pub push_stage :
      ℕ → ℕ → ℕ → LayerAssignment fl → List (LayerAssignment fl) × ℕ → List (LayerAssignment fl) × ℕ
  push_stage total_layers cursor share a rest =
      if leb total_layers cursor
      then ([], cursor)
      else if share == 0
      then rest
      else (a ∷ rest.0, rest.1)

  unfoldable pub assignment_of : ℕ → ℕ → ℕ → PeerInfo fl → LayerAssignment fl
  unfolding compute_ms transfer_ms
  assignment_of bytes_per_layer cursor share p = record {
    peer_id = p.node_id;
    layer_range = record { first = cursor; stop = cursor + share };
    estimated_compute_ms = compute_ms share bytes_per_layer p;
    estimated_transfer_ms = transfer_ms p;
  }

  -- The loop over the peers, from a layer cursor: the assignments, and the cursor at the end.
  unfoldable pub assign_layers :
      ℕ → ℕ → ℕ → ℕ → List (PeerInfo fl) → ℕ → List (LayerAssignment fl) × ℕ
  assign_layers least total_cap total_layers bytes_per_layer [] cursor = ([], cursor)
  assign_layers least total_cap total_layers bytes_per_layer (p ∷ ps) cursor =
      let share = share_of fl least total_cap total_layers (capacity p) (is_nil ps) cursor in
      let rest = assign_layers least total_cap total_layers bytes_per_layer ps (cursor + share) in
      push_stage total_layers cursor share (assignment_of bytes_per_layer cursor share p) rest
