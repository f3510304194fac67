-- ===== src/Contribution/Limits.antt =====
-- What a contribution plan promises.
use hive_bear.Prelude.{
  ℕ, ◌+◌, ◌/◌, ◌%◌, ◌^◌, ◌≤◌, ◌<◌, ◌≡◌, refl, false, arith, ◌==◌, Bool-cases, inl, inr,
}
use native.Mathlib.Nat.{le-div_iff_mul-le, mul-div-le}
use hive_bear.Float.{Float}
use hive_bear.Contribution.{
  HardwareProfile, ContributionTier, cpu_worker, light_gpu, mid_gpu, strong_gpu, heavy_gpu,
  ModelChoice, total_vram, tier_of_vram, determine_tier, choose_model, max_layers,
  plan_contribution,
}

abbrev pub strength : ContributionTier → ℕ
strength cpu_worker = 0
strength light_gpu = 1
strength mid_gpu = 2
strength strong_gpu = 3
strength heavy_gpu = 4

-- More memory on the GPUs never gives a lower tier.
pub determine_tier_mono :
    (p q : HardwareProfile)
    → total_vram p.gpu_vram_bytes ≤ total_vram q.gpu_vram_bytes
    → strength (determine_tier p) ≤ strength (determine_tier q)
unfolding determine_tier tier_of_vram
determine_tier_mono p q h = ground (arith, h)

layers-le :
    (fl : Float) (t : ContributionTier) (ram usable : ℕ)
    → ((choose_model fl t ram usable).layers ≤ 80) × (0 < (choose_model fl t ram usable).layers)
unfolding choose_model
layers-le fl cpu_worker ram usable = ground arith
layers-le fl light_gpu ram usable = ground arith
layers-le fl mid_gpu ram usable = ground arith
layers-le fl strong_gpu ram usable = ground arith
layers-le fl heavy_gpu ram usable = ground arith

max_layers_whole :
    (fl : Float) (c : ModelChoice) (usable : ℕ)
    → c.layers ≤ 80
    → 0 < c.layers
    → c.model_size ≤ usable
    → max_layers fl c usable ≡ c.layers
unfolding max_layers
max_layers_whole fl c usable h pos fits =
    let some_layers : (c.layers == 0) ≡ false = ground (arith, pos) in
    elim (Bool-cases (c.model_size / c.layers == 0)) [
      | inl z ↦ rw (some_layers, z) refl
      | inr nz ↦
          let each : 0 < c.model_size / c.layers = ground (arith, nz) in
          let enough : c.layers ≤ usable / (c.model_size / c.layers) =
            (le-div_iff_mul-le each).1 (omega (arith, mul-div-le c.model_size c.layers, fits)) in
          rw (some_layers, nz) (omega (arith, enough, h))
    ]

module _ (fl : Float) (profile : HardwareProfile) where
  -- The memory that the plan counts with, and the model that it recommends.
  abbrev usable_memory : ℕ
  usable_memory =
      (total_vram profile.gpu_vram_bytes
        + fl.trunc_u64 (fl.mul (fl.of_nat profile.available_bytes) (fl.literal 85 2)))
      % 2 ^ 64

  abbrev pub recommended : ModelChoice
  recommended =
      choose_model fl (determine_tier profile)
        (fl.trunc_u64 (fl.mul (fl.of_nat profile.available_bytes) (fl.literal 85 2))) usable_memory

  -- If the recommended model fits into the memory that the plan counts with, the plan promises all the
  -- layers of the model, whatever the floating-point rounding gives.
  pub plan_contribution_whole :
      (plan_contribution fl profile).model_size_bytes ≤ usable_memory
      → (plan_contribution fl profile).max_layers_serviceable ≡ recommended.layers
  unfolding plan_contribution
  plan_contribution_whole fits =
      let ram = fl.trunc_u64 (fl.mul (fl.of_nat profile.available_bytes) (fl.literal 85 2)) in
      let v = layers-le fl (determine_tier profile) ram usable_memory in
      max_layers_whole fl recommended usable_memory v.0 v.1 fits
