-- ===== src/Recommender/Estimates.antt =====
-- Estimates of memory, speed and confidence: crates/hivebear-core/src/recommender/scoring.rs.
use hive_bear.Prelude.{
  ℕ, ◌+◌, ◌*◌, ◌/◌, ◌%◌, ◌^◌, Bool, true, false, not, ◌&&◌, ◌||◌, Option, none, some, List, [], ◌∷◌,
  leb, if◌then◌else◌, is_yes,
}
use hive_bear.Prelude.Text.{Text, text_dec, codes, contains, to_lowercase}
use hive_bear.Float.{Float, min_f64, clamp}
use hive_bear.Hardware.{
  ComputeApi, cuda, InferenceEngine, llama_cpp, mlx, Quantization, GpuInfo, HardwareProfile,
  gpu_memory, bits_per_weight,
}
use hive_bear.Recommender.Models.{ModelEntry}

abbrev pub gb : ℕ
gb = 1024 * 1024 * 1024

-- `==` of texts.
unfoldable pub is_text : Text → Text → Bool
is_text a b = is_yes (text_dec a b)

unfoldable is_cuda : ComputeApi → Bool
is_cuda cuda = true
is_cuda _ = false

-- The first entry of a table whose text the name contains.
unfoldable first_match : Text → List (Text × ℕ) → ℕ → ℕ
first_match name [] default = default
first_match name ((part, value) ∷ rest) default =
    if contains part name then value else first_match name rest default

unfoldable pub estimate_gpu_bandwidth : (fl : Float) → GpuInfo → fl.F64
unfolding first_match to_lowercase
estimate_gpu_bandwidth fl gpu =
    fl.literal
      (first_match (to_lowercase gpu.name)
        ((codes "4090", 1008)
          ∷ (codes "4080", 717)
          ∷ (codes "4070", 504)
          ∷ (codes "4060", 288)
          ∷ (codes "3090", 936)
          ∷ (codes "3080", 760)
          ∷ (codes "3070", 448)
          ∷ (codes "3060", 360)
          ∷ (codes "7900 xtx", 960)
          ∷ (codes "7900 xt", 800)
          ∷ (codes "7800 xt", 624)
          ∷ (codes "apple", 200)
          ∷ [])
        100)
      0

unfoldable bandwidth_with : (fl : Float) → fl.F64 → List GpuInfo → fl.F64
unfolding estimate_gpu_bandwidth
bandwidth_with fl ram_bw [] = ram_bw
bandwidth_with fl ram_bw (gpu ∷ gpus) =
    let gpu_bw = estimate_gpu_bandwidth fl gpu in
    if fl.less ram_bw gpu_bw
    then fl.add (fl.mul gpu_bw (fl.literal 6 1)) (fl.mul ram_bw (fl.literal 4 1))
    else ram_bw

unfoldable any_cuda : List GpuInfo → Bool
unfolding is_cuda
any_cuda [] = false
any_cuda (gpu ∷ gpus) = is_cuda gpu.compute_api || any_cuda gpus

abbrev pub no_gpus : List GpuInfo → Bool
no_gpus [] = true
no_gpus (g ∷ gs) = false

-- `==` of numbers, and `contains`.
unfoldable is_one_of : (fl : Float) → fl.F64 → List ℕ → Bool
is_one_of fl x [] = false
is_one_of fl x (n ∷ ns) =
    (fl.less_eq x (fl.literal n 0) && fl.less_eq (fl.literal n 0) x) || is_one_of fl x ns

module _ {fl : Float} where
  open fl use {literal, of_nat, add, sub, mul, div, less, less_eq, trunc_u64, round_f32}

  unfoldable pub is_mobile_platform : HardwareProfile fl → Bool
  unfolding is_text
  is_mobile_platform profile =
      profile.platform.is_mobile
      || is_text profile.platform.os (codes "android")
      || is_text profile.platform.os (codes "ios")

  -- `none` is `f64::MAX`.
  unfoldable pub max_params_for_platform : HardwareProfile fl → Option fl.F64
  unfolding is_mobile_platform is_text
  max_params_for_platform profile =
      if is_text profile.platform.os (codes "browser")
        || is_text profile.platform.arch (codes "wasm32")
      then some (literal 8 0)
      else if is_mobile_platform profile
      then if leb profile.memory.available_bytes (4 * gb)
        then some (literal 15 1)
        else some (literal 35 1)
      else if is_text profile.platform.arch (codes "aarch64")
          && leb profile.memory.total_bytes (9 * gb)
      then some (literal 7 0)
      else none

  -- `model.params_billions > max_params`; no number exceeds `f64::MAX` but the infinite one.
  unfoldable pub exceeds_limit : ModelEntry fl → Option fl.F64 → Bool
  exceeds_limit model none = false
  exceeds_limit model (some limit) = less limit model.params_billions

  unfoldable pub memory_fraction_for_platform : HardwareProfile fl → fl.F64 → fl.F64
  unfolding is_mobile_platform
  memory_fraction_for_platform profile requested =
      if is_mobile_platform profile then min_f64 fl requested (literal 4 1) else requested

  unfoldable pub calculate_effective_memory : HardwareProfile fl → fl.F64 → ℕ
  calculate_effective_memory profile max_fraction =
      (trunc_u64 (mul (of_nat profile.memory.available_bytes) max_fraction)
        + gpu_memory profile.gpus)
      % 2 ^ 64

  unfoldable pub effective_bandwidth : HardwareProfile fl → fl.F64
  unfolding bandwidth_with
  effective_bandwidth profile =
      bandwidth_with fl profile.memory.estimated_bandwidth_gbps profile.gpus

  unfoldable pub select_engine : HardwareProfile fl → InferenceEngine
  unfolding is_text any_cuda
  select_engine profile =
      if is_text profile.platform.os (codes "macos")
        && is_text profile.platform.arch (codes "aarch64")
      then mlx
      else if any_cuda profile.gpus
      then llama_cpp
      else if not (no_gpus profile.gpus)
      then llama_cpp
      else llama_cpp

  unfoldable params : ModelEntry fl → fl.F64
  params model = mul model.params_billions (literal 1000000000 0)

  -- The sums are on `u64`.
  unfoldable pub estimate_memory : ModelEntry fl → Quantization → ℕ → ℕ
  unfolding params
  estimate_memory model quant context_length =
      let weight_bytes =
        trunc_u64 (div (mul (params model) (bits_per_weight fl quant)) (literal 8 0)) in
      let kv_cache_bytes =
        trunc_u64 (
          div (mul (mul (params model) (literal 125 3)) (of_nat context_length))
            (literal 1000 0)) in
      let both = (weight_bytes + kv_cache_bytes) % 2 ^ 64 in (both + both / 10) % 2 ^ 64

  unfoldable pub estimate_tokens_per_sec : ModelEntry fl → Quantization → fl.F64 → fl.F64
  unfolding params
  estimate_tokens_per_sec model quant bandwidth_gbps =
      let bytes_per_token = div (mul (params model) (bits_per_weight fl quant)) (literal 8 0) in
      if less (literal 0 0) bytes_per_token
      then round_f32 (div (mul bandwidth_gbps (literal 1000000000 0)) bytes_per_token)
      else literal 0 0

  unfoldable pub calculate_confidence : ModelEntry fl → HardwareProfile fl → fl.F64
  unfolding is_one_of
  calculate_confidence model profile =
      let tenth = round_f32 (literal 1 1) in
      let base = round_f32 (literal 7 1) in
      let known =
        if is_one_of fl model.params_billions (1 ∷ 3 ∷ 7 ∷ 8 ∷ 13 ∷ 14 ∷ 32 ∷ 70 ∷ [])
        then round_f32 (add base tenth)
        else base in
      let measured =
        if less (literal 0 0) profile.memory.estimated_bandwidth_gbps
        then round_f32 (add known tenth)
        else known in
      let large =
        if less (literal 30 0) model.params_billions
        then round_f32 (sub measured tenth)
        else measured in
      clamp fl tenth (round_f32 (literal 95 2)) large
