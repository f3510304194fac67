-- ===== src/Contribution.antt =====
-- What a machine can contribute: crates/hivebear-core/src/contribution.rs. Of the hardware profile the
-- module reads the memory of each GPU, the available memory and the number of cores.
pub mod Limits
mod Tests
use hive_bear.Prelude.{
  ℕ, zero, suc, ◌+◌, ◌*◌, ◌/◌, ◌%◌, ◌^◌, List, [], ◌∷◌, ltb, leb, ◌==◌, if◌then◌else◌, min,
}
use hive_bear.Prelude.Text.{Text, codes}
use hive_bear.Float.{Float}

pub record HardwareProfile : Type 0 where
  pub gpu_vram_bytes : List ℕ
  pub available_bytes : ℕ
  pub physical_cores : ℕ

pub data ContributionTier : Type 0 where
  cpu_worker light_gpu mid_gpu strong_gpu heavy_gpu : ContributionTier

pub record ContributionPlan (fl : Float) : Type 0 where
  pub tier : ContributionTier
  pub recommended_model : Text
  pub recommended_model_name : Text
  pub model_size_bytes : ℕ
  pub estimated_tflops : fl.F64
  pub max_layers_serviceable : ℕ

abbrev pub gb : ℕ
gb = 1024 * 1024 * 1024

-- The sum of the memories of the GPUs, on `u64`.
unfoldable pub total_vram : List ℕ → ℕ
total_vram [] = 0
total_vram (v ∷ vs) = (v + total_vram vs) % 2 ^ 64

unfoldable pub tier_of_vram : ℕ → ContributionTier
tier_of_vram v =
    if v == 0
    then cpu_worker
    else if ltb v (4 * gb)
    then light_gpu
    else if ltb v (8 * gb)
    then mid_gpu
    else if ltb v (16 * gb)
    then strong_gpu
    else heavy_gpu

unfoldable pub determine_tier : HardwareProfile → ContributionTier
unfolding tier_of_vram
determine_tier profile = tier_of_vram (total_vram profile.gpu_vram_bytes)

-- The model of a tier: its identity, its name, its size and its layers.
pub record ModelChoice : Type 0 where
  pub model_id : Text
  pub model_name : Text
  pub model_size : ℕ
  pub layers : ℕ

module _ (fl : Float) where
  open fl use {literal, of_nat, mul, div, trunc_u64}

  unfoldable pub choose_model : ContributionTier → ℕ → ℕ → ModelChoice
  choose_model cpu_worker available_ram total_usable =
      if leb (2 * gb) available_ram
      then record {
        model_id = codes "phi-3-mini-3.8b-q4_k_m";
        model_name = codes "Phi-3 Mini 3.8B";
        model_size = trunc_u64 (mul (literal 23 1) (of_nat gb));
        layers = 32;
      }
      else record {
        model_id = codes "tinyllama-1.1b-q4_k_m";
        model_name = codes "TinyLlama 1.1B";
        model_size = trunc_u64 (mul (literal 7 1) (of_nat gb));
        layers = 22;
      }
  choose_model light_gpu available_ram total_usable = record {
    model_id = codes "llama-3.2-3b-q4_k_m";
    model_name = codes "Llama 3.2 3B";
    model_size = 2 * gb;
    layers = 28;
  }
  choose_model mid_gpu available_ram total_usable =
      if leb (7 * gb) total_usable
      then record {
        model_id = codes "llama-3.1-8b-q4_k_m";
        model_name = codes "Llama 3.1 8B";
        model_size = 5 * gb;
        layers = 32;
      }
      else record {
        model_id = codes "mistral-7b-q4_k_m";
        model_name = codes "Mistral 7B";
        model_size = 4 * gb;
        layers = 32;
      }
  choose_model strong_gpu available_ram total_usable =
      if leb (10 * gb) total_usable
      then record {
        model_id = codes "codellama-13b-q4_k_m";
        model_name = codes "CodeLlama 13B";
        model_size = 8 * gb;
        layers = 40;
      }
      else record {
        model_id = codes "llama-3.1-8b-q6_k";
        model_name = codes "Llama 3.1 8B (Q6)";
        model_size = 7 * gb;
        layers = 32;
      }
  choose_model heavy_gpu available_ram total_usable =
      if leb (42 * gb) total_usable
      then record {
        model_id = codes "llama-3.1-70b-q4_k_m";
        model_name = codes "Llama 3.1 70B";
        model_size = 40 * gb;
        layers = 80;
      }
      else record {
        model_id = codes "yi-34b-q4_k_m";
        model_name = codes "Yi 34B";
        model_size = 20 * gb;
        layers = 60;
      }

  -- `checked_div` twice: none of the divisors of a chosen model is 0, but the code says what then.
  unfoldable pub max_layers : ModelChoice → ℕ → ℕ
  max_layers choice total_usable =
      let bytes_per_layer =
        if choice.layers == 0 then choice.model_size else choice.model_size / choice.layers in
      if bytes_per_layer == 0
      then choice.layers
      else min (total_usable / bytes_per_layer) choice.layers % 2 ^ 32

  unfoldable pub plan_contribution : HardwareProfile → ContributionPlan fl
  unfolding determine_tier choose_model max_layers total_vram
  plan_contribution profile =
      let vram = total_vram profile.gpu_vram_bytes in
      let available_ram = trunc_u64 (mul (of_nat profile.available_bytes) (literal 85 2)) in
      let total_usable = (vram + available_ram) % 2 ^ 64 in
      let choice = choose_model (determine_tier profile) available_ram total_usable in
      record {
        tier = determine_tier profile;
        recommended_model = choice.model_id;
        recommended_model_name = choice.model_name;
        model_size_bytes = choice.model_size;
        estimated_tflops =
            if ltb 0 vram
            then mul (div (of_nat vram) (of_nat gb)) (literal 2 0)
            else mul (of_nat profile.physical_cores) (literal 1 1);
        max_layers_serviceable = max_layers choice total_usable;
      }
