-- ===== src/Transport/Tests.antt =====
-- Runs of the conversions, and the theorems at concrete tensors.
use hive_bear.Prelude.{◌*◌, ◌^◌, ◌≡◌, refl, inr, [], ◌∷◌, arith}
use hive_bear.Transport.Half.{f16_from_f32, f32_from_f16}
use hive_bear.Transport.Half.Roundtrip.{
  f16_from_f32-f32_from_f16, f32_value, f32_value-f32_from_f16_denormal,
}
use hive_bear.Transport.Dtype.{
  TensorDtype, u16_from_le, u32_to_le, f16_to_f32, convert_for_transfer,
}
use hive_bear.Transport.Dtype.Bytes.{convert_for_transfer_roundtrip}

-- 1.0, -2.5 and the largest half-precision number.
encodings :
    (f16_from_f32 0x3F800000 ≡ 0x3C00)
    × (f16_from_f32 0xC0200000 ≡ 0xC100)
    × (f16_from_f32 0x477FE000 ≡ 0x7BFF)
unfolding f16_from_f32
encodings = (refl, refl, refl)

-- One and a half as half precision, and as single precision.
tensor_run :
    convert_for_transfer (0x00 ∷ 0x3E ∷ []) TensorDtype.f16 TensorDtype.f32
    ≡ 0x00 ∷ 0x00 ∷ 0xC0 ∷ 0x3F ∷ []
unfolding convert_for_transfer f16_to_f32 u16_from_le u32_to_le f32_from_f16
tensor_run = refl

f16_from_f32-f32_from_f16_example : f16_from_f32 (f32_from_f16 0x3C01) ≡ 0x3C01
f16_from_f32-f32_from_f16_example = f16_from_f32-f32_from_f16 0x3C01 (omega arith)

f32_value-f32_from_f16_denormal_example : f32_value (f32_from_f16 3) * 2 ≡ 3 * 2 ^ 126
f32_value-f32_from_f16_denormal_example =
    f32_value-f32_from_f16_denormal 3 (omega arith) refl (omega arith)

convert_for_transfer_roundtrip_example :
    convert_for_transfer
      (convert_for_transfer (0x00 ∷ 0x3E ∷ []) TensorDtype.f16 TensorDtype.f32)
      TensorDtype.f32
      TensorDtype.f16
    ≡ 0x00 ∷ 0x3E ∷ []
convert_for_transfer_roundtrip_example =
    convert_for_transfer_roundtrip (0x00 ∷ 0x3E ∷ [])
      (omega arith, omega arith, inr (omega arith, omega arith), tt)
