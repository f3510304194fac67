-- ===== src/Transport/Dtype.antt =====
-- The element types of activation tensors: `TensorDtype` of
-- crates/hivebear-mesh/src/transport/protocol.rs with its tags, the tags that
-- crates/hivebear-cli/src/pipeline_handler.rs uses on the other side of `MeshPipelineHandler`, and the
-- conversion of whole tensors of crates/hivebear-mesh/src/transport/tensor_transfer.rs.
pub mod Bytes
use hive_bear.Prelude.{
  is_yes, if◌then◌else◌, ℕ, zero, suc, ◌+◌, ◌*◌, ◌/◌, ◌%◌, ◌^◌, ◌<◌, ◌≡◌, refl, Option, none, some,
  List, [], ◌∷◌, ◌++◌,
}
use hive_bear.Prelude.Text.{Text, text_dec, codes}
use hive_bear.Transport.Half.{f16_from_f32, f32_from_f16}

pub data TensorDtype : Type 0 where
  f16 f32 bf16 : TensorDtype

-- `ActivationDtype` of the inference crate.
pub data ActivationDtype : Type 0 where
  f32 f16 bf16 : ActivationDtype

unfoldable pub byte_size : TensorDtype → ℕ
byte_size TensorDtype.f16 = 2
byte_size TensorDtype.bf16 = 2
byte_size TensorDtype.f32 = 4

unfoldable pub to_u8 : TensorDtype → ℕ
to_u8 TensorDtype.f32 = 0
to_u8 TensorDtype.f16 = 1
to_u8 TensorDtype.bf16 = 2

unfoldable pub from_u8 : ℕ → Option TensorDtype
from_u8 zero = some TensorDtype.f32
from_u8 (suc zero) = some TensorDtype.f16
from_u8 (suc (suc zero)) = some TensorDtype.bf16
from_u8 (suc (suc (suc v))) = none

-- The two matches of `CliPipelineHandler::forward_layers`: the tag that it is given, and the tag that
-- it returns.
unfoldable pub handler_input_dtype : ℕ → ActivationDtype
handler_input_dtype zero = ActivationDtype.f32
handler_input_dtype (suc zero) = ActivationDtype.f16
handler_input_dtype (suc (suc zero)) = ActivationDtype.bf16
handler_input_dtype (suc (suc (suc v))) = ActivationDtype.f32

unfoldable pub handler_output_dtype : ActivationDtype → ℕ
handler_output_dtype ActivationDtype.f32 = 0
handler_output_dtype ActivationDtype.f16 = 1
handler_output_dtype ActivationDtype.bf16 = 2

-- `u16::from_le_bytes`, `u32::from_le_bytes` and their inverses, over bytes as numbers.
unfoldable pub u16_from_le : ℕ → ℕ → ℕ
u16_from_le a b = a + b * 2 ^ 8

unfoldable pub u32_from_le : ℕ → ℕ → ℕ → ℕ → ℕ
u32_from_le a b c d = a + b * 2 ^ 8 + c * 2 ^ 16 + d * 2 ^ 24

unfoldable pub u16_to_le : ℕ → List ℕ → List ℕ
u16_to_le h rest = (h % 2 ^ 8) ∷ (h / 2 ^ 8) ∷ rest

unfoldable pub u32_to_le : ℕ → List ℕ → List ℕ
u32_to_le f rest = (f % 2 ^ 8) ∷ (f / 2 ^ 8 % 2 ^ 8) ∷ (f / 2 ^ 16 % 2 ^ 8) ∷ (f / 2 ^ 24) ∷ rest

-- Chunks of four bytes; a shorter rest is dropped, as by `as_chunks`.
unfoldable pub f32_to_f16 : List ℕ → List ℕ
unfolding u32_from_le u16_to_le
f32_to_f16 (a ∷ b ∷ c ∷ d ∷ rest) = u16_to_le (f16_from_f32 (u32_from_le a b c d)) (f32_to_f16 rest)
f32_to_f16 _ = []

unfoldable pub f16_to_f32 : List ℕ → List ℕ
unfolding u16_from_le u32_to_le
f16_to_f32 (a ∷ b ∷ rest) = u32_to_le (f32_from_f16 (u16_from_le a b)) (f16_to_f32 rest)
f16_to_f32 _ = []

unfoldable pub convert_for_transfer : List ℕ → TensorDtype → TensorDtype → List ℕ
convert_for_transfer bytes TensorDtype.f32 TensorDtype.f16 = f32_to_f16 bytes
convert_for_transfer bytes TensorDtype.f16 TensorDtype.f32 = f16_to_f32 bytes
convert_for_transfer bytes _ _ = bytes

-- `select_transfer_dtype`: an `F32` tensor goes as `F16`, unless the configuration names a type.
unfoldable select_transfer_dtype : Text → TensorDtype → TensorDtype
select_transfer_dtype config src =
    if is_yes (text_dec config (codes "f16"))
    then TensorDtype.f16
    else if is_yes (text_dec config (codes "f32"))
    then TensorDtype.f32
    else automatic src
  where
    automatic : TensorDtype → TensorDtype
    automatic TensorDtype.f32 = TensorDtype.f16
    automatic TensorDtype.f16 = TensorDtype.f16
    automatic TensorDtype.bf16 = TensorDtype.bf16
