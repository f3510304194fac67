-- ===== src/Recommender/Builtin/Others.antt =====
-- More of the known models: crates/hivebear-core/src/recommender/model_db.rs.
use hive_bear.Prelude.{true, false, some, [], ◌∷◌}
use hive_bear.Prelude.Text.{codes}
use hive_bear.Float.{Float}
use hive_bear.Hardware.{gguf, onnx, safe_tensors}
use hive_bear.Recommender.Models.{ModelEntry, general, code, instruction}

module _ {fl : Float} where
  open fl use {literal}

  unfoldable pub qwen_2_5_coder_32b : ModelEntry fl
  qwen_2_5_coder_32b = record {
    id = codes "qwen-2.5-coder-32b";
    name = codes "Qwen 2.5 Coder 32B";
    params_billions = literal 32 0;
    formats = gguf ∷ safe_tensors ∷ [];
    context_length = 131072;
    quality_score = literal 88 2;
    category = code;
    huggingface_id = some (codes "Qwen/Qwen2.5-Coder-32B-Instruct-GGUF");
    candle_compatible = false;
  }

  unfoldable pub mistral_7b_v0_3 : ModelEntry fl
  mistral_7b_v0_3 = record {
    id = codes "mistral-7b-v0.3";
    name = codes "Mistral 7B v0.3";
    params_billions = literal 7 0;
    formats = gguf ∷ safe_tensors ∷ [];
    context_length = 32768;
    quality_score = literal 68 2;
    category = general;
    huggingface_id = some (codes "bartowski/Mistral-7B-Instruct-v0.3-GGUF");
    candle_compatible = true;
  }

  unfoldable pub mixtral_8x7b : ModelEntry fl
  mixtral_8x7b = record {
    id = codes "mixtral-8x7b";
    name = codes "Mixtral 8x7B";
    params_billions = literal 467 1;
    formats = gguf ∷ safe_tensors ∷ [];
    context_length = 32768;
    quality_score = literal 82 2;
    category = general;
    huggingface_id = some (codes "bartowski/Mixtral-8x7B-Instruct-v0.1-GGUF");
    candle_compatible = false;
  }

  unfoldable pub phi_3_mini_3_8b : ModelEntry fl
  phi_3_mini_3_8b = record {
    id = codes "phi-3-mini-3.8b";
    name = codes "Phi-3 Mini 3.8B";
    params_billions = literal 38 1;
    formats = gguf ∷ onnx ∷ safe_tensors ∷ [];
    context_length = 128000;
    quality_score = literal 62 2;
    category = instruction;
    huggingface_id = some (codes "bartowski/Phi-3-mini-128k-instruct-GGUF");
    candle_compatible = false;
  }

  unfoldable pub phi_3_medium_14b : ModelEntry fl
  phi_3_medium_14b = record {
    id = codes "phi-3-medium-14b";
    name = codes "Phi-3 Medium 14B";
    params_billions = literal 14 0;
    formats = gguf ∷ onnx ∷ safe_tensors ∷ [];
    context_length = 128000;
    quality_score = literal 78 2;
    category = instruction;
    huggingface_id = some (codes "bartowski/Phi-3-medium-128k-instruct-GGUF");
    candle_compatible = false;
  }

  unfoldable pub gemma_2_2b : ModelEntry fl
  gemma_2_2b = record {
    id = codes "gemma-2-2b";
    name = codes "Gemma 2 2B";
    params_billions = literal 2 0;
    formats = gguf ∷ safe_tensors ∷ [];
    context_length = 8192;
    quality_score = literal 52 2;
    category = general;
    huggingface_id = some (codes "bartowski/gemma-2-2b-it-GGUF");
    candle_compatible = false;
  }

  unfoldable pub gemma_2_9b : ModelEntry fl
  gemma_2_9b = record {
    id = codes "gemma-2-9b";
    name = codes "Gemma 2 9B";
    params_billions = literal 9 0;
    formats = gguf ∷ safe_tensors ∷ [];
    context_length = 8192;
    quality_score = literal 74 2;
    category = general;
    huggingface_id = some (codes "bartowski/gemma-2-9b-it-GGUF");
    candle_compatible = false;
  }

  unfoldable pub gemma_2_27b : ModelEntry fl
  gemma_2_27b = record {
    id = codes "gemma-2-27b";
    name = codes "Gemma 2 27B";
    params_billions = literal 27 0;
    formats = gguf ∷ safe_tensors ∷ [];
    context_length = 8192;
    quality_score = literal 83 2;
    category = general;
    huggingface_id = some (codes "bartowski/gemma-2-27b-it-GGUF");
    candle_compatible = false;
  }

  unfoldable pub deepseek_coder_v2_lite : ModelEntry fl
  deepseek_coder_v2_lite = record {
    id = codes "deepseek-coder-v2-lite";
    name = codes "DeepSeek Coder V2 Lite 16B";
    params_billions = literal 16 0;
    formats = gguf ∷ safe_tensors ∷ [];
    context_length = 128000;
    quality_score = literal 76 2;
    category = code;
    huggingface_id = some (codes "bartowski/DeepSeek-Coder-V2-Lite-Instruct-GGUF");
    candle_compatible = false;
  }

  unfoldable pub starcoder2_3b : ModelEntry fl
  starcoder2_3b = record {
    id = codes "starcoder2-3b";
    name = codes "StarCoder2 3B";
    params_billions = literal 3 0;
    formats = gguf ∷ safe_tensors ∷ [];
    context_length = 16384;
    quality_score = literal 55 2;
    category = code;
    huggingface_id = some (codes "bartowski/starcoder2-3b-GGUF");
    candle_compatible = false;
  }
