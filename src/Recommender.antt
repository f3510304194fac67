-- ===== src/Recommender.antt =====
-- Recommendations of models for a machine: crates/hivebear-core/src/recommender/scoring.rs and mod.rs.
-- Of a formatted warning, the fixed text is kept. Names of GPUs are compared in lower case, which is
-- done for ASCII letters.
pub mod Models
pub mod Builtin
pub mod Estimates
pub mod Ranking
pub mod BestQuant
pub mod Community
mod Tests
use hive_bear.Prelude.{
  ℕ, zero, suc, ◌+◌, ◌*◌, ◌/◌, ◌%◌, ◌^◌, Bool, true, false, not, ◌&&◌, ◌||◌, Option, none, some,
  List, [], ◌∷◌, ◌++◌, map, take, ltb, leb, ◌==◌, if◌then◌else◌, is_yes,
}
use hive_bear.Prelude.Sort.{sort_by}
use hive_bear.Prelude.Text.{Text, text_dec, codes}
use hive_bear.Float.{Float, min_f64}
use hive_bear.Hardware.{
  InferenceEngine, Quantization, q2_k, q3_k_m, q3_k_l, q4_k_s, q4_k_m, q5_k_s, q5_k_m, q6_k, q8_0,
  HardwareProfile, GpuInfo, bits_per_weight, quality_retention,
}
use hive_bear.Recommender.Models.{ModelEntry}
use hive_bear.Recommender.Builtin.{builtin_models}
use hive_bear.Recommender.Estimates.{
  is_mobile_platform, max_params_for_platform, memory_fraction_for_platform,
  calculate_effective_memory, effective_bandwidth, select_engine, estimate_memory,
  estimate_tokens_per_sec, calculate_confidence, exceeds_limit, no_gpus,
}

pub record ModelRecommendation (fl : Float) : Type 0 where
  pub model_id : Text
  pub model_name : Text
  pub quantization : Quantization
  pub engine : InferenceEngine
  pub estimated_tokens_per_sec : fl.F64
  pub estimated_memory_usage_bytes : ℕ
  pub confidence : fl.F64
  pub warnings : List Text
  pub score : fl.F64
  pub community_tokens_per_sec : Option fl.F64
  pub community_sample_count : Option ℕ

abbrev pub quant_levels : List Quantization
quant_levels = q4_k_m ∷ q4_k_s ∷ q5_k_m ∷ q5_k_s ∷ q6_k ∷ q8_0 ∷ q3_k_m ∷ q3_k_l ∷ q2_k ∷ []

-- The arguments of `recommend` beside the models, and what it computes from them before its loop.
pub record Limits (fl : Float) : Type 0 where
  pub profile : HardwareProfile fl
  pub memory_fraction : fl.F64
  pub effective_memory : ℕ
  pub bandwidth_gbps : fl.F64
  pub min_tok_s : fl.F64

unfoldable warn : Bool → Text → List Text
warn true text = text ∷ []
warn false text = []

module _ {fl : Float} where
  open fl use {literal, of_nat, add, mul, div, less, less_eq, trunc_u64}

  unfoldable pub limits_of : HardwareProfile fl → fl.F64 → fl.F64 → Limits fl
  limits_of profile max_memory_fraction min_tok_s =
      let fraction = memory_fraction_for_platform profile max_memory_fraction in
      record {
        profile = profile;
        memory_fraction = fraction;
        effective_memory = calculate_effective_memory profile fraction;
        bandwidth_gbps = effective_bandwidth profile;
        min_tok_s = min_tok_s;
      }

  unfoldable pub warnings_of : Limits fl → Quantization → ℕ → fl.F64 → List Text
  unfolding warn
  warnings_of l quant memory_bytes tok_s =
      let ram_only = mul (of_nat l.profile.memory.available_bytes) l.memory_fraction in
      warn (less (bits_per_weight fl quant) (literal 4 0))
        (codes "Using aggressive quantization: expect some quality loss")
      ++ warn (ltb (trunc_u64 ram_only) memory_bytes && not (no_gpus l.profile.gpus))
          (codes "Will split layers between CPU and GPU")
      ++ warn (less tok_s (literal 10 0)) (codes "may feel slow for interactive use")

  unfoldable pub score_of : ModelEntry fl → Quantization → fl.F64 → fl.F64
  score_of model quant tok_s =
      let quality = mul model.quality_score (quality_retention fl quant) in
      let speed_normalized = min_f64 fl (div tok_s (literal 100 0)) (literal 1 0) in
      add (mul quality (literal 6 1)) (mul speed_normalized (literal 4 1))

  unfoldable pub recommendation : Limits fl → ModelEntry fl → Quantization → ModelRecommendation fl
  unfolding score_of warnings_of
  recommendation l model quant =
      let memory_bytes = estimate_memory model quant 4096 in
      let tok_s = estimate_tokens_per_sec model quant l.bandwidth_gbps in
      record {
        model_id = model.id;
        model_name = model.name;
        quantization = quant;
        engine = select_engine l.profile;
        estimated_tokens_per_sec = tok_s;
        estimated_memory_usage_bytes = memory_bytes;
        confidence = calculate_confidence model l.profile;
        warnings = warnings_of l quant memory_bytes tok_s;
        score = score_of model quant tok_s;
        community_tokens_per_sec = none;
        community_sample_count = none;
      }

  -- The two `continue`s of the loop over the quantizations.
  unfoldable pub fits : Limits fl → ModelEntry fl → Quantization → Bool
  fits l model quant =
      not (ltb l.effective_memory (estimate_memory model quant 4096))
      && not (less (estimate_tokens_per_sec model quant l.bandwidth_gbps) l.min_tok_s)

  -- The better of the best so far and a new one.
  unfoldable pub keep_best :
      Option (ModelRecommendation fl) → ModelRecommendation fl → Option (ModelRecommendation fl)
  keep_best none new = some new
  keep_best (some existing) new =
      if less_eq new.score existing.score then some existing else some new

  unfoldable pub best_quant :
      Limits fl
      → ModelEntry fl
      → List Quantization
      → Option (ModelRecommendation fl)
      → Option (ModelRecommendation fl)
  best_quant l model [] best = best
  best_quant l model (quant ∷ quants) best =
      best_quant l model quants
        (if fits l model quant then keep_best best (recommendation l model quant) else best)

  -- The two `continue`s of the loop over the models.
  unfoldable pub allowed : HardwareProfile fl → ModelEntry fl → Bool
  allowed profile model =
      not (is_mobile_platform profile && not model.candle_compatible)
      && not (exceeds_limit model (max_params_for_platform profile))

  unfoldable pub push_some :
      Option (ModelRecommendation fl)
      → List (ModelRecommendation fl)
      → List (ModelRecommendation fl)
  push_some none rest = rest
  push_some (some rec) rest = rec ∷ rest

  unfoldable pub collect : Limits fl → List (ModelEntry fl) → List (ModelRecommendation fl)
  collect l [] = []
  collect l (model ∷ models) =
      let rest = collect l models in
      if allowed l.profile model
      then push_some (best_quant l model quant_levels none) rest
      else rest

  -- `b.score.partial_cmp(&a.score).unwrap_or(Equal)`: a may stand before b unless its score is less.
  abbrev pub by_score : ModelRecommendation fl → ModelRecommendation fl → Bool
  by_score a b = not (less a.score b.score)

  unfoldable pub recommend :
      HardwareProfile fl
      → List (ModelEntry fl)
      → fl.F64
      → fl.F64
      → ℕ
      → List (ModelRecommendation fl)
  unfolding limits_of
  recommend profile models max_memory_fraction min_tok_s top_n =
      take top_n
        (sort_by by_score (collect (limits_of profile max_memory_fraction min_tok_s) models))

  -- `recommend` of mod.rs: the known models, and three fields of the configuration.
  unfoldable pub recommend_builtin :
      HardwareProfile fl → fl.F64 → fl.F64 → ℕ → List (ModelRecommendation fl)
  unfolding recommend
  recommend_builtin profile = recommend profile builtin_models
