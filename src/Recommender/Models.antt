-- ===== src/Recommender/Models.antt =====
-- The models that are known: crates/hivebear-core/src/recommender/model_db.rs.
use hive_bear.Prelude.{ℕ, Bool, Option, List}
use hive_bear.Prelude.Text.{Text}
use hive_bear.Float.{Float}
use hive_bear.Hardware.{ModelFormat}

pub data ModelCategory : Type 0 where
  general code chat instruction math multilingual : ModelCategory

pub record ModelEntry (fl : Float) : Type 0 where
  pub id : Text
  pub name : Text
  pub params_billions : fl.F64
  pub formats : List ModelFormat
  pub context_length : ℕ
  pub quality_score : fl.F64
  pub category : ModelCategory
  pub huggingface_id : Option Text
  pub candle_compatible : Bool
