-- ===== src/Hardware.antt =====
-- Hardware profiles, quantizations and engines: crates/hivebear-core/src/types.rs.
use hive_bear.Prelude.{ℕ, Bool, Option, List, ◌+◌, ◌%◌, ◌^◌, [], ◌∷◌}
use hive_bear.Prelude.Text.{Text, codes}
use hive_bear.Float.{Float}

pub data ComputeApi : Type 0 where
  vulkan cuda metal open_cl web_gpu direct_x12 no_api : ComputeApi

pub data InferenceEngine : Type 0 where
  llama_cpp onnx_runtime mlx candle web_gpu_engine mesh cloud : InferenceEngine

pub data Quantization : Type 0 where
  q2_k q3_k_s q3_k_m q3_k_l q4_0 q4_1 q4_k_s q4_k_m q5_0 q5_1 q5_k_s q5_k_m q6_k q8_0 f16 f32 :
      Quantization

pub data ModelFormat : Type 0 where
  gguf onnx mlx_format safe_tensors : ModelFormat

pub data PowerSource : Type 0 where
  ac unknown : PowerSource
  battery : ℕ → PowerSource

pub record CpuInfo : Type 0 where
  pub model_name : Text
  pub physical_cores : ℕ
  pub logical_cores : ℕ
  pub isa_extensions : List Text
  pub cache_size_bytes : ℕ

pub record MemoryInfo (fl : Float) : Type 0 where
  pub total_bytes : ℕ
  pub available_bytes : ℕ
  pub estimated_bandwidth_gbps : fl.F64

pub record GpuInfo : Type 0 where
  pub name : Text
  pub vram_bytes : ℕ
  pub compute_api : ComputeApi
  pub driver_version : Option Text

pub record StorageInfo (fl : Float) : Type 0 where
  pub available_bytes : ℕ
  pub estimated_read_speed_mbps : fl.F64

pub record PlatformInfo : Type 0 where
  pub os : Text
  pub arch : Text
  pub is_mobile : Bool
  pub power_source : PowerSource

pub record HardwareProfile (fl : Float) : Type 0 where
  pub cpu : CpuInfo
  pub memory : MemoryInfo fl
  pub gpus : List GpuInfo
  pub storage : StorageInfo fl
  pub platform : PlatformInfo

-- The memory of all GPUs, on `u64`.
unfoldable pub gpu_memory : List GpuInfo → ℕ
gpu_memory [] = 0
gpu_memory (g ∷ gs) = (g.vram_bytes + gpu_memory gs) % 2 ^ 64

module _ (fl : Float) where
  open fl use {literal}

  unfoldable pub bits_per_weight : Quantization → fl.F64
  bits_per_weight q2_k = literal 25 1
  bits_per_weight q3_k_s = literal 34375 4
  bits_per_weight q3_k_m = literal 34375 4
  bits_per_weight q3_k_l = literal 34375 4
  bits_per_weight q4_0 = literal 4 0
  bits_per_weight q4_1 = literal 45 1
  bits_per_weight q4_k_s = literal 45 1
  bits_per_weight q4_k_m = literal 45 1
  bits_per_weight q5_0 = literal 5 0
  bits_per_weight q5_1 = literal 55 1
  bits_per_weight q5_k_s = literal 55 1
  bits_per_weight q5_k_m = literal 55 1
  bits_per_weight q6_k = literal 65 1
  bits_per_weight q8_0 = literal 8 0
  bits_per_weight f16 = literal 16 0
  bits_per_weight f32 = literal 32 0

  unfoldable pub quality_retention : Quantization → fl.F64
  quality_retention q2_k = literal 7 1
  quality_retention q3_k_s = literal 78 2
  quality_retention q3_k_m = literal 82 2
  quality_retention q3_k_l = literal 84 2
  quality_retention q4_0 = literal 87 2
  quality_retention q4_1 = literal 88 2
  quality_retention q4_k_s = literal 89 2
  quality_retention q4_k_m = literal 92 2
  quality_retention q5_0 = literal 93 2
  quality_retention q5_1 = literal 94 2
  quality_retention q5_k_s = literal 94 2
  quality_retention q5_k_m = literal 95 2
  quality_retention q6_k = literal 97 2
  quality_retention q8_0 = literal 99 2
  quality_retention f16 = literal 1 0
  quality_retention f32 = literal 1 0

-- `Display` of a quantization.
unfoldable pub quantization_name : Quantization → Text
quantization_name q2_k = codes "Q2_K"
quantization_name q3_k_s = codes "Q3_K_S"
quantization_name q3_k_m = codes "Q3_K_M"
quantization_name q3_k_l = codes "Q3_K_L"
quantization_name q4_0 = codes "Q4_0"
quantization_name q4_1 = codes "Q4_1"
quantization_name q4_k_s = codes "Q4_K_S"
quantization_name q4_k_m = codes "Q4_K_M"
quantization_name q5_0 = codes "Q5_0"
quantization_name q5_1 = codes "Q5_1"
quantization_name q5_k_s = codes "Q5_K_S"
quantization_name q5_k_m = codes "Q5_K_M"
quantization_name q6_k = codes "Q6_K"
quantization_name q8_0 = codes "Q8_0"
quantization_name f16 = codes "F16"
quantization_name f32 = codes "F32"
