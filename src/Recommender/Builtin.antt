-- ===== src/Recommender/Builtin.antt =====
-- The models that are known: crates/hivebear-core/src/recommender/model_db.rs.
mod Others
use hive_bear.Prelude.{true, false, some, List, [], ◌∷◌}
use hive_bear.Prelude.Text.{codes}
use hive_bear.Float.{Float}
use hive_bear.Hardware.{gguf, mlx_format, safe_tensors}
use hive_bear.Recommender.Models.{ModelEntry, general, code, chat, instruction, math, multilingual}
use hive_bear.Recommender.Builtin.Others.{
  qwen_2_5_coder_32b, mistral_7b_v0_3, mixtral_8x7b, phi_3_mini_3_8b, phi_3_medium_14b, gemma_2_2b,
  gemma_2_9b, gemma_2_27b, deepseek_coder_v2_lite, starcoder2_3b,
}

module _ {fl : Float} where
  open fl use {literal}

  unfoldable llama_3_2_1b : ModelEntry fl
  llama_3_2_1b = record {
    id = codes "llama-3.2-1b";
    name = codes "Llama 3.2 1B";
    params_billions = literal 1 0;
    formats = gguf ∷ safe_tensors ∷ [];
    context_length = 128000;
    quality_score = literal 45 2;
    category = general;
    huggingface_id = some (codes "bartowski/Llama-3.2-1B-Instruct-GGUF");
    candle_compatible = true;
  }

  unfoldable llama_3_2_3b : ModelEntry fl
  llama_3_2_3b = record {
    id = codes "llama-3.2-3b";
    name = codes "Llama 3.2 3B";
    params_billions = literal 3 0;
    formats = gguf ∷ safe_tensors ∷ [];
    context_length = 128000;
    quality_score = literal 58 2;
    category = general;
    huggingface_id = some (codes "bartowski/Llama-3.2-3B-Instruct-GGUF");
    candle_compatible = true;
  }

  unfoldable llama_3_1_8b : ModelEntry fl
  llama_3_1_8b = record {
    id = codes "llama-3.1-8b";
    name = codes "Llama 3.1 8B";
    params_billions = literal 8 0;
    formats = gguf ∷ safe_tensors ∷ mlx_format ∷ [];
    context_length = 128000;
    quality_score = literal 72 2;
    category = general;
    huggingface_id = some (codes "bartowski/Meta-Llama-3.1-8B-Instruct-GGUF");
    candle_compatible = true;
  }

  unfoldable llama_3_1_70b : ModelEntry fl
  llama_3_1_70b = record {
    id = codes "llama-3.1-70b";
    name = codes "Llama 3.1 70B";
    params_billions = literal 70 0;
    formats = gguf ∷ safe_tensors ∷ mlx_format ∷ [];
    context_length = 128000;
    quality_score = literal 9 1;
    category = general;
    huggingface_id = some (codes "bartowski/Meta-Llama-3.1-70B-Instruct-GGUF");
    candle_compatible = true;
  }

  unfoldable qwen_2_5_0_5b : ModelEntry fl
  qwen_2_5_0_5b = record {
    id = codes "qwen-2.5-0.5b";
    name = codes "Qwen 2.5 0.5B";
    params_billions = literal 5 1;
    formats = gguf ∷ safe_tensors ∷ [];
    context_length = 32768;
    quality_score = literal 35 2;
    category = general;
    huggingface_id = some (codes "Qwen/Qwen2.5-0.5B-Instruct-GGUF");
    candle_compatible = false;
  }

  unfoldable qwen_2_5_1_5b : ModelEntry fl
  qwen_2_5_1_5b = record {
    id = codes "qwen-2.5-1.5b";
    name = codes "Qwen 2.5 1.5B";
    params_billions = literal 15 1;
    formats = gguf ∷ safe_tensors ∷ [];
    context_length = 32768;
    quality_score = literal 5 1;
    category = general;
    huggingface_id = some (codes "Qwen/Qwen2.5-1.5B-Instruct-GGUF");
    candle_compatible = false;
  }

  unfoldable qwen_2_5_7b : ModelEntry fl
  qwen_2_5_7b = record {
    id = codes "qwen-2.5-7b";
    name = codes "Qwen 2.5 7B";
    params_billions = literal 7 0;
    formats = gguf ∷ safe_tensors ∷ [];
    context_length = 131072;
    quality_score = literal 7 1;
    category = general;
    huggingface_id = some (codes "Qwen/Qwen2.5-7B-Instruct-GGUF");
    candle_compatible = false;
  }

  unfoldable qwen_2_5_32b : ModelEntry fl
  qwen_2_5_32b = record {
    id = codes "qwen-2.5-32b";
    name = codes "Qwen 2.5 32B";
    params_billions = literal 32 0;
    formats = gguf ∷ safe_tensors ∷ [];
    context_length = 131072;
    quality_score = literal 85 2;
    category = general;
    huggingface_id = some (codes "Qwen/Qwen2.5-32B-Instruct-GGUF");
    candle_compatible = false;
  }

  unfoldable qwen_2_5_72b : ModelEntry fl
  qwen_2_5_72b = record {
    id = codes "qwen-2.5-72b";
    name = codes "Qwen 2.5 72B";
    params_billions = literal 72 0;
    formats = gguf ∷ safe_tensors ∷ [];
    context_length = 131072;
    quality_score = literal 91 2;
    category = general;
    huggingface_id = some (codes "Qwen/Qwen2.5-72B-Instruct-GGUF");
    candle_compatible = false;
  }

  unfoldable qwen_2_5_coder_7b : ModelEntry fl
  qwen_2_5_coder_7b = record {
    id = codes "qwen-2.5-coder-7b";
    name = codes "Qwen 2.5 Coder 7B";
    params_billions = literal 7 0;
    formats = gguf ∷ safe_tensors ∷ [];
    context_length = 131072;
    quality_score = literal 73 2;
    category = code;
    huggingface_id = some (codes "Qwen/Qwen2.5-Coder-7B-Instruct-GGUF");
    candle_compatible = false;
  }

  unfoldable pub builtin_models : List (ModelEntry fl)
  unfolding llama_3_2_1b llama_3_2_3b llama_3_1_8b llama_3_1_70b qwen_2_5_0_5b qwen_2_5_1_5b
      qwen_2_5_7b qwen_2_5_32b qwen_2_5_72b qwen_2_5_coder_7b qwen_2_5_coder_32b mistral_7b_v0_3
      mixtral_8x7b phi_3_mini_3_8b phi_3_medium_14b gemma_2_2b gemma_2_9b gemma_2_27b
      deepseek_coder_v2_lite starcoder2_3b
  builtin_models =
      llama_3_2_1b ∷ llama_3_2_3b ∷ llama_3_1_8b ∷ llama_3_1_70b ∷ qwen_2_5_0_5b ∷ qwen_2_5_1_5b
      ∷ qwen_2_5_7b ∷ qwen_2_5_32b ∷ qwen_2_5_72b ∷ qwen_2_5_coder_7b ∷ qwen_2_5_coder_32b
      ∷ mistral_7b_v0_3 ∷ mixtral_8x7b ∷ phi_3_mini_3_8b ∷ phi_3_medium_14b ∷ gemma_2_2b
      ∷ gemma_2_9b ∷ gemma_2_27b ∷ deepseek_coder_v2_lite ∷ starcoder2_3b ∷ []
