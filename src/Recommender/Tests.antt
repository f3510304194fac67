-- ===== src/Recommender/Tests.antt =====
-- The theorems on recommendations at a concrete machine.
use hive_bear.Prelude.{ℕ, ◌*◌, ◌≤◌, true, false, none, List, [], ◌∷◌, arith, length, All}
use hive_bear.Prelude.Text.{Text, codes}
use hive_bear.Float.{fixed_point}
use hive_bear.Hardware.{HardwareProfile, cuda, ac, gguf}
use hive_bear.Recommender.Models.{ModelEntry, general}
use hive_bear.Recommender.Estimates.{gb}
use hive_bear.Recommender.{quant_levels, limits_of, best_quant, recommend}
use hive_bear.Recommender.Ranking.{IsSound, recommend-IsSound}
use hive_bear.Recommender.BestQuant.{IsBestQuant, best_quant-IsBestQuant}
use hive_bear.Recommender.Community.{
  CommunityBenchmarkSummary, merge_community_data, AreMerged, merge_community_data-AreMerged,
}

abbrev desktop : HardwareProfile fixed_point
desktop = record {
  cpu = record {
    model_name = codes "cpu";
    physical_cores = 8;
    logical_cores = 16;
    isa_extensions = [];
    cache_size_bytes = 0;
  };
  memory = record {
    total_bytes = 16 * gb;
    available_bytes = 12 * gb;
    estimated_bandwidth_gbps = 50000;
  };
  gpus =
      record {
        name = codes "RTX 3060";
        vram_bytes = 12 * gb;
        compute_api = cuda;
        driver_version = none;
      }
      ∷ [];
  storage = record { available_bytes = 100 * gb; estimated_read_speed_mbps = 500000 };
  platform = record {
    os = codes "linux";
    arch = codes "x86_64";
    is_mobile = false;
    power_source = ac;
  };
}

abbrev model : Text → ℕ → ModelEntry fixed_point
model id params = record {
  id = id;
  name = id;
  params_billions = params;
  formats = gguf ∷ [];
  context_length = 4096;
  quality_score = 700;
  category = general;
  huggingface_id = none;
  candle_compatible = true;
}

abbrev models : List (ModelEntry fixed_point)
models = model (codes "small") 1000 ∷ model (codes "middle") 8000 ∷ []

recommend-IsSound_example :
    let recs = recommend desktop models 850 5000 10 in
    All (IsSound (limits_of desktop 850 5000) models) recs × (length recs ≤ 10)
recommend-IsSound_example = recommend-IsSound desktop models 850 5000 10

best_quant-IsBestQuant_example :
    let l = limits_of desktop 850 5000 in
    IsBestQuant l
      (model (codes "middle") 8000)
      quant_levels
      (best_quant l (model (codes "middle") 8000) quant_levels none)
best_quant-IsBestQuant_example =
    best_quant-IsBestQuant (limits_of desktop 850 5000) (model (codes "middle") 8000)
      (λ x y h. ground (arith, h)) (λ x y z h k. ground (arith, h, k))

abbrev summary : CommunityBenchmarkSummary fixed_point
summary = record {
  model_id = codes "small";
  quantization = codes "Q4_K_M";
  sample_count = 15;
  tokens_per_sec_p50 = 22000;
  hardware_similarity = 900;
}

merge_community_data-AreMerged_example :
    let recs = recommend desktop models 850 5000 10 in
    AreMerged (summary ∷ []) recs (merge_community_data recs (summary ∷ []))
merge_community_data-AreMerged_example =
    merge_community_data-AreMerged (recommend desktop models 850 5000 10) (summary ∷ [])
