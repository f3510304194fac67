-- ===== src/Scheduler/SwarmAware/Limits.antt =====
-- The limits of `SwarmAwareScheduler`: which peers it chooses, and what their plan is.
use Prim.Native.Nat.add
use mathlib.Core.Path.{subst}
use hive_bear.Prelude.{
  ℕ, zero, suc, ◌+◌, ◌-◌, ◌*◌, ◌/◌, ◌%◌, ◌^◌, ◌≤◌, ◌<◌, ◌≡◌, ◌⊎◌, refl, true, false, ◌&&◌, List, [],
  ◌∷◌, arith, length, keep, take, ltb, ◌==◌, Bool-cases, inl, inr, min, length-take,
}
use hive_bear.Prelude.Sort.{sort_by}
use hive_bear.Prelude.Text.{Text}
use hive_bear.Float.{Float}
use hive_bear.Peer.{PeerInfo, capacity}
use hive_bear.Scheduler.{
  LayerAssignment, InferencePlan, ranks_first, total_capacity, share_of, assignment_of, push_stage,
  assign_layers,
}
use hive_bear.Scheduler.Cover.{Covers, Succeeds, assign_layers-Follows, assign_layers-cursor}
use hive_bear.Scheduler.SwarmAware.{
  SwarmAwareScheduler, stages, close_enough, stage_count, chosen, finish_plan, plan_chosen,
}

stages-le :
    (total least n : ℕ)
    → (stages total least n ≤ n)
      × ((stages total least n ≤ 1) ⊎ (least * stages total least n % 2 ^ 32 ≤ total))
unfolding stages
stages-le total least zero = (omega arith, inl (omega arith))
stages-le total least (suc n) =
    elim (Bool-cases (ltb 1 (suc n) && ltb total (least * suc n % 2 ^ 32))) [
      | inl fewer ↦
          rw fewer (omega (arith, (stages-le total least n).0), (stages-le total least n).1)
      | inr enough ↦ rw enough (omega arith, ground (arith, enough))
    ]

module _ {fl : Float} where
  -- A plan of all the layers, without gap or overlap, for at most n peers.
  abbrev pub Good : ℕ → ℕ → InferencePlan fl → Type 0
  Good total_layers n p =
      Covers 0 total_layers p.assignments
      × (length p.assignments ≤ n)
      × (p.total_layers ≡ total_layers)

module _ {fl : Float} (s : SwarmAwareScheduler fl) where
  stage_count-le :
      (total n : ℕ)
      → n ≤ s.max_pipeline_depth
      → let c = stage_count s total n in
        (c ≤ n) × ((c ≤ 1) ⊎ (s.min_layers_per_stage * c % 2 ^ 32 ≤ total))
  unfolding stage_count
  stage_count-le total n h =
      elim (Bool-cases
        (ltb total (s.min_layers_per_stage * min n s.max_pipeline_depth % 2 ^ 32) && ltb 1 n)) [
          | inl fewer ↦ rw fewer (stages-le total s.min_layers_per_stage n)
          | inr enough ↦
              let e : min n s.max_pipeline_depth ≡ n = omega arith in
              rw enough (omega arith, fits (rw e at enough))
        ]
    where
      fits :
          (ltb total (s.min_layers_per_stage * n % 2 ^ 32) && ltb 1 n) ≡ false
          → (n ≤ 1) ⊎ (s.min_layers_per_stage * n % 2 ^ 32 ≤ total)
      fits e = ground arith

  -- The chosen peers are at most as many as the pipeline may be deep, and, if there are two or more,
  -- few enough that the model has the least number of layers for each of them (the product is taken
  -- modulo 2 ^ 32, as the code does).
  pub chosen_limits :
      (total_layers : ℕ) (peers : List (PeerInfo fl))
      → let n = length (chosen s total_layers peers) in
        (n ≤ s.max_pipeline_depth)
        × ((n ≤ 1) ⊎ (s.min_layers_per_stage * n % 2 ^ 32 ≤ total_layers))
  unfolding chosen
  chosen_limits total_layers peers =
      let eligible =
        take s.max_pipeline_depth (sort_by ranks_first (keep (close_enough s) peers)) in
      let depth =
        length-take s.max_pipeline_depth (sort_by ranks_first (keep (close_enough s) peers)) in
      let n = length eligible in
      let c = stage_count s total_layers n in
      let le : n ≤ s.max_pipeline_depth = omega (arith, depth) in
      let v = stage_count-le total_layers n le in
      let e : length (take c eligible) ≡ c = omega (arith, length-take c eligible, v.0) in
      rw e (omega (arith, le, v.0), v.1)

  finish_plan-Succeeds :
      (model_id : Text) (total_layers n : ℕ) (r : List (LayerAssignment fl) × ℕ)
      → r.1 ≡ total_layers
      → Covers 0 r.1 r.0
      → length r.0 ≤ n
      → Succeeds (Good total_layers n) (finish_plan model_id total_layers r)
  unfolding finish_plan
  finish_plan-Succeeds model_id total_layers n r e c le =
      let all_assigned : ltb r.1 total_layers ≡ false = ground arith in
      rw all_assigned (subst (λ t. Covers 0 t r.0) e c, le, refl)

  -- Planning on chosen peers that have some capacity succeeds, whatever the floating-point rounding
  -- gives: the ranges are not empty and follow one another from layer 0 to the last layer, at most one
  -- for each peer.
  pub plan_chosen_covers :
      (model_id : Text) (total_layers size : ℕ) (used : List (PeerInfo fl))
      → 0 < total_capacity used
      → Succeeds (Good total_layers (length used)) (plan_chosen s model_id total_layers size used)
  unfolding plan_chosen
  plan_chosen_covers model_id total_layers size [] h =
      absurd (unfold total_capacity in omega (arith, h))
  plan_chosen_covers model_id total_layers size (q ∷ qs) h =
      let cap = total_capacity (q ∷ qs) in
      let b = size / total_layers in
      let least = s.min_layers_per_stage in
      let some_capacity : (cap == 0) ≡ false = ground (arith, h) in
      let v = assign_layers-Follows least cap total_layers b (q ∷ qs) 0 (omega arith) in
      rw some_capacity (
        finish_plan-Succeeds model_id total_layers (length (q ∷ qs))
          (assign_layers least cap total_layers b (q ∷ qs) 0)
          (assign_layers-cursor least cap total_layers b q qs 0 (omega arith)) v.0 v.2)

two_stages :
    {fl : Float} (total bytes_per_layer share end : ℕ) (p q : PeerInfo fl)
    → 0 < share
    → share < total
    → (push_stage total 0 share (assignment_of bytes_per_layer 0 share p) (
        push_stage total share
          (total - share)
          (assignment_of bytes_per_layer share (total - share) q)
          ([], end))).0
      ≡ assignment_of bytes_per_layer 0 share p
        ∷ assignment_of bytes_per_layer share (total - share) q
        ∷ []
unfolding push_stage
two_stages total bytes_per_layer share end p q pos lt = ground arith

share_of_last :
    (fl : Float) (least total_cap total_layers c cursor : ℕ)
    → share_of fl least total_cap total_layers c true cursor ≡ total_layers - cursor
unfolding share_of
share_of_last fl least total_cap total_layers c cursor = refl

-- Where the least number of layers is not kept: if the rounded share of the first of two peers leaves
-- fewer than `least` layers, but some, the plan gives the second peer just those.
pub last_stage_short :
    {fl : Float} (least total_cap total_layers bytes_per_layer : ℕ) (p q : PeerInfo fl)
    → let share = share_of fl least total_cap total_layers (capacity p) false 0 in
      0 < share
      → share < total_layers
      → total_layers < share + least
      → ((assign_layers least total_cap total_layers bytes_per_layer (p ∷ q ∷ []) 0).0
          ≡ assignment_of bytes_per_layer 0 share p
            ∷ assignment_of bytes_per_layer share (total_layers - share) q
            ∷ [])
        × (total_layers - share < least)
unfolding assign_layers
last_stage_short {fl} least total_cap total_layers bytes_per_layer p q pos lt short =
    let share = share_of fl least total_cap total_layers (capacity p) false 0 in
    (
      rw (add.zero share, share_of_last)
          (two_stages total_layers bytes_per_layer share (share + (total_layers - share)) p q pos
            lt),
      omega (arith, lt, short),
    )
