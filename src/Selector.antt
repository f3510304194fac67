-- ===== src/Selector.antt =====
-- The choice of an engine for a model: crates/hivebear-inference/src/selector.rs, the lookups of
-- `EngineRegistry` in crates/hivebear-inference/src/engine/mod.rs, and the errors of
-- crates/hivebear-inference/src/error.rs. Of a backend, the model keeps what the choice reads; the
-- extension of a path and the bytes of its file are arguments. The log is not modelled.
pub mod Usable
mod Tests
use hive_bear.Prelude.{
  ℕ, zero, suc, Bool, true, false, ◌&&◌, ◌||◌, not, Option, none, some, List, [], ◌∷◌, ◌++◌, take,
  ltb, ◌==◌, if◌then◌else◌, is_yes, length,
}
use hive_bear.Prelude.Text.{Text, codes, text_dec, to_lowercase}
use hive_bear.Float.{Float}
use hive_bear.Hardware.{
  InferenceEngine, llama_cpp, onnx_runtime, mlx, candle, web_gpu_engine, mesh, cloud, ModelFormat,
  gguf, onnx, mlx_format, safe_tensors, HardwareProfile,
}

pub data InferenceError : Type 0 where
  model_not_found unsupported_format no_engine_available engine_not_compiled load_error :
      Text → InferenceError
  generation_error grammar_error tool_call_error offload_error io : Text → InferenceError
  invalid_handle : InferenceError

-- A result, or the panic of a slice that is out of range.
pub data Outcome (A : Type 0) : Type 0 where
  ok : A → Outcome A
  err : InferenceError → Outcome A
  panicked : Outcome A

-- `PartialEq` of engines and formats, by their discriminants.
unfoldable engine_tag : InferenceEngine → ℕ
engine_tag llama_cpp = 0
engine_tag onnx_runtime = 1
engine_tag mlx = 2
engine_tag candle = 3
engine_tag web_gpu_engine = 4
engine_tag mesh = 5
engine_tag cloud = 6

unfoldable format_tag : ModelFormat → ℕ
format_tag gguf = 0
format_tag onnx = 1
format_tag mlx_format = 2
format_tag safe_tensors = 3

-- `Display` of a format.
unfoldable format_name : ModelFormat → Text
format_name gguf = codes "GGUF"
format_name onnx = codes "ONNX"
format_name mlx_format = codes "MLX"
format_name safe_tensors = codes "SafeTensors"

pub record Backend : Type 0 where
  pub engine_id : InferenceEngine
  pub name : Text
  pub supported_formats : List ModelFormat
  pub is_available : Bool
  pub is_stub : Bool

unfoldable contains : ModelFormat → List ModelFormat → Bool
unfolding format_tag
contains format [] = false
contains format (f ∷ fs) = format_tag f == format_tag format || contains format fs

unfoldable find : (Backend → Bool) → List Backend → Option Backend
find p [] = none
find p (b ∷ bs) = if p b then some b else find p bs

unfoldable available_engines : List Backend → List Backend
available_engines [] = []
available_engines (b ∷ bs) =
    if b.is_available then b ∷ available_engines bs else available_engines bs

unfoldable get : InferenceEngine → List Backend → Option Backend
unfolding engine_tag find
get engine = find (λ b. engine_tag b.engine_id == engine_tag engine && b.is_available)

-- The test of `get_real`.
unfoldable real_for : InferenceEngine → Backend → Bool
unfolding engine_tag
real_for engine b = engine_tag b.engine_id == engine_tag engine && (b.is_available && not b.is_stub)

unfoldable get_real : InferenceEngine → List Backend → Option Backend
unfolding real_for find
get_real engine = find (real_for engine)

unfoldable first_of : Option Backend → Option Backend → Option Backend
first_of none rest = rest
first_of (some b) rest = some b

-- The test of `find_for_format`.
unfoldable real_for_format : ModelFormat → InferenceEngine → Backend → Bool
unfolding real_for contains
real_for_format format engine b = real_for engine b && contains format b.supported_formats

-- The loop of `find_for_format` over its priorities.
unfoldable first_for_format : ModelFormat → List InferenceEngine → List Backend → Option Backend
unfolding find real_for_format first_of
first_for_format format [] backends = none
first_for_format format (e ∷ es) backends =
    first_of (find (real_for_format format e) backends) (first_for_format format es backends)

abbrev pub local_engines : List InferenceEngine
local_engines = llama_cpp ∷ candle ∷ onnx_runtime ∷ mlx ∷ []

unfoldable find_for_format : ModelFormat → List Backend → Option Backend
unfolding first_for_format
find_for_format format = first_for_format format local_engines

unfoldable register : Backend → List Backend → List Backend
register backend backends = backends ++ (backend ∷ [])

-- The engines to try first. The three cases of the hardware for GGUF give one list.
unfoldable priority_for : ModelFormat → Bool → Bool → List InferenceEngine
priority_for gguf is_apple_silicon has_gpu =
    if is_apple_silicon
    then llama_cpp ∷ candle ∷ []
    else (if has_gpu then llama_cpp ∷ candle ∷ [] else llama_cpp ∷ candle ∷ [])
priority_for safe_tensors is_apple_silicon has_gpu = candle ∷ []
priority_for onnx is_apple_silicon has_gpu = onnx_runtime ∷ []
priority_for mlx_format is_apple_silicon has_gpu = mlx ∷ []

-- A backend that was found, if it supports the format; else the rest of the search.
unfoldable or_else : ModelFormat → Option Backend → Option Backend → Option Backend
unfolding contains
or_else format none rest = rest
or_else format (some b) rest = if contains format b.supported_formats then some b else rest

unfoldable by_priority : ModelFormat → List InferenceEngine → List Backend → Option Backend
unfolding or_else get_real
by_priority format [] backends = none
by_priority format (e ∷ es) backends =
    or_else format (get_real e backends) (by_priority format es backends)

unfoldable selected : ModelFormat → Option Backend → Outcome Backend
unfolding format_name
selected format none = err (no_engine_available (format_name format))
selected format (some b) = ok b

module _ {fl : Float} where
  unfoldable is_apple_silicon : HardwareProfile fl → Bool
  is_apple_silicon profile =
      is_yes (text_dec profile.platform.os (codes "macos"))
      && is_yes (text_dec profile.platform.arch (codes "aarch64"))

  unfoldable has_gpu : HardwareProfile fl → Bool
  has_gpu profile = ltb 0 (length profile.gpus)

  unfoldable pub chosen_backend : List Backend → ModelFormat → HardwareProfile fl → Option Backend
  unfolding first_of by_priority priority_for is_apple_silicon has_gpu find_for_format or_else
      get_real
  chosen_backend backends format profile =
      let engines = priority_for format (is_apple_silicon profile) (has_gpu profile) in
      let from_mesh = or_else format (get_real mesh backends) none in
      first_of (by_priority format engines backends)
        (first_of (find_for_format format backends) from_mesh)

  unfoldable select_engine : List Backend → ModelFormat → HardwareProfile fl → Outcome Backend
  unfolding selected chosen_backend
  select_engine backends format profile = selected format (chosen_backend backends format profile)

-- The first four bytes of a file that could be read.
unfoldable is_gguf : Option (List ℕ) → Outcome Bool
is_gguf none = ok false
is_gguf (some bytes) =
    if ltb (length bytes) 4 then panicked else ok (is_yes (text_dec (take 4 bytes) (codes "GGUF")))

unfoldable by_magic : Text → Outcome Bool → Outcome ModelFormat
by_magic path (ok true) = ok gguf
by_magic path (ok false) = err (unsupported_format (codes "Cannot determine format for: " ++ path))
by_magic path (err e) = err e
by_magic path panicked = panicked

-- The path as it is displayed, its extension (empty without one), and the bytes of the file, if it can
-- be read.
unfoldable detect_format : Text → Text → Option (List ℕ) → Outcome ModelFormat
unfolding is_gguf by_magic
detect_format path extension bytes =
    let ext = to_lowercase extension in
    if is_yes (text_dec ext (codes "gguf"))
    then ok gguf
    else (if is_yes (text_dec ext (codes "onnx"))
        then ok onnx
        else (if is_yes (text_dec ext (codes "safetensors"))
            then ok safe_tensors
            else (if is_yes (text_dec ext (codes "mlx")) || is_yes (text_dec ext (codes "npz"))
                then ok mlx_format
                else by_magic path (is_gguf bytes))))
