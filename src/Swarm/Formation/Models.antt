-- ===== src/Swarm/Formation/Models.antt =====
-- Model size classes, the configuration, and who can draft: crates/hivebear-mesh/src/swarm/formation.rs.
use hive_bear.Prelude.{ℕ, ◌*◌, Option, none, some, List, [], ◌∷◌, keep, ltb, leb, if◌then◌else◌}
use hive_bear.Prelude.Text.{Text, codes}
use hive_bear.Float.{Float}
use hive_bear.Peer.{DraftCapability, PeerInfo, capacity}
use hive_bear.Swarm.{max_swarm_size}

pub record ModelSizeClass (fl : Float) : Type 0 where
  pub model_id : Text
  pub display_name : Text
  pub size_bytes : ℕ
  pub total_layers : ℕ
  pub params_billions : fl.F64

pub record FormationConfig (fl : Float) : Type 0 where
  pub max_latency_ms : fl.F64
  pub max_pipeline_depth : ℕ
  pub min_layers_per_stage : ℕ
  pub min_peer_capacity_bytes : ℕ
  pub min_drafter_capacity_bytes : ℕ

abbrev pub gb : ℕ
gb = 1024 * 1024 * 1024

abbrev pub min_swarm_capacity_bytes : ℕ
min_swarm_capacity_bytes = 3 * 1024 * 1024 * 1024

unfoldable pub default_config : (fl : Float) → FormationConfig fl
default_config fl = record {
  max_latency_ms = fl.literal 50 0;
  max_pipeline_depth = max_swarm_size;
  min_layers_per_stage = 4;
  min_peer_capacity_bytes = 2 * gb;
  min_drafter_capacity_bytes = 512 * 1024 * 1024;
}

-- `(0.7 * gb as f64) as u64`, `(2.3 * gb as f64) as u64`.
unfoldable tenths_of_gb : Float → ℕ → ℕ
tenths_of_gb fl n = fl.trunc_u64 (fl.mul (fl.literal n 1) (fl.of_nat gb))

-- What is left of a capacity for the weights: 85 of 100.
unfoldable pub usable : Float → ℕ → ℕ
usable fl capacity_bytes = fl.trunc_u64 (fl.mul (fl.of_nat capacity_bytes) (fl.literal 85 2))

module _ {fl : Float} where
  open fl use {literal}

  unfoldable size_class : Text → Text → ℕ → ℕ → fl.F64 → ModelSizeClass fl
  size_class id name size layers params = record {
    model_id = id;
    display_name = name;
    size_bytes = size;
    total_layers = layers;
    params_billions = params;
  }

  unfoldable builtin_model_classes : List (ModelSizeClass fl)
  unfolding size_class tenths_of_gb
  builtin_model_classes =
      size_class (codes "tinyllama-1.1b-q4_k_m") (codes "TinyLlama 1.1B") (tenths_of_gb fl 7) 22
        (literal 11 1)
      ∷ size_class (codes "phi-3-mini-3.8b-q4_k_m") (codes "Phi-3 Mini 3.8B") (tenths_of_gb fl 23)
          32 (literal 38 1)
      ∷ size_class (codes "llama-3.2-3b-q4_k_m") (codes "Llama 3.2 3B") (2 * gb) 28 (literal 3 0)
      ∷ size_class (codes "mistral-7b-q4_k_m") (codes "Mistral 7B") (4 * gb) 32 (literal 7 0)
      ∷ size_class (codes "llama-3.1-8b-q4_k_m") (codes "Llama 3.1 8B") (5 * gb) 32 (literal 8 0)
      ∷ size_class (codes "llama-3.1-8b-q6_k") (codes "Llama 3.1 8B (Q6)") (7 * gb) 32 (literal 8 0)
      ∷ size_class (codes "codellama-13b-q4_k_m") (codes "CodeLlama 13B") (8 * gb) 40 (literal 13 0)
      ∷ size_class (codes "yi-34b-q4_k_m") (codes "Yi 34B") (20 * gb) 60 (literal 34 0)
      ∷ size_class (codes "llama-3.1-70b-q4_k_m") (codes "Llama 3.1 70B") (40 * gb) 80
          (literal 70 0)
      ∷ []

  -- `max_by_key(size_bytes)`: the last of the largest.
  unfoldable pub larger :
      ModelSizeClass fl → Option (ModelSizeClass fl) → Option (ModelSizeClass fl)
  larger m none = some m
  larger m (some n) = if ltb n.size_bytes m.size_bytes then some m else some n

  unfoldable pub largest : List (ModelSizeClass fl) → Option (ModelSizeClass fl)
  largest [] = none
  largest (m ∷ ms) = larger m (largest ms)

  unfoldable pub best_model_for_capacity : ℕ → List (ModelSizeClass fl) → Option (ModelSizeClass fl)
  best_model_for_capacity capacity_bytes models =
      largest (keep (λ m. leb m.size_bytes (usable fl capacity_bytes)) models)

  unfoldable pub classify_as_drafter :
      PeerInfo fl → FormationConfig fl → Option (DraftCapability fl)
  unfolding tenths_of_gb
  classify_as_drafter p config =
      if ltb (capacity p) config.min_drafter_capacity_bytes
      then none
      else if leb config.min_peer_capacity_bytes (capacity p)
      then none
      else if leb (2 * gb) (capacity p)
      then some (record {
        draft_model_id = codes "phi-3-mini-3.8b-q4_k_m";
        draft_model_size_bytes = tenths_of_gb fl 23;
        estimated_draft_tok_s = literal 5 0;
      })
      else some (record {
        draft_model_id = codes "tinyllama-1.1b-q4_k_m";
        draft_model_size_bytes = tenths_of_gb fl 7;
        estimated_draft_tok_s = literal 10 0;
      })
