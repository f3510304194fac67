-- ===== src/Transport/Dtype/Bytes.antt =====
-- Whole tensors through the conversions: sizes, and what survives a round trip.
use hive_bear.Prelude.{
  ℕ, zero, suc, ◌+◌, ◌*◌, ◌/◌, ◌%◌, ◌^◌, ◌<◌, ◌≡◌, ◌≢◌, ◌↔◌, ◌⊎◌, inl, inr, refl, some, List, [],
  ◌∷◌, length, arith,
}
use hive_bear.Transport.Half.{f16_from_f32, f32_from_f16}
use hive_bear.Transport.Half.Roundtrip.{f16_from_f32-f32_from_f16, f32_from_f16-lt}
use hive_bear.Transport.Dtype.{
  TensorDtype, ActivationDtype, byte_size, to_u8, from_u8, handler_input_dtype,
  handler_output_dtype, u16_from_le, u32_from_le, u16_to_le, u32_to_le, f32_to_f16, f16_to_f32,
  convert_for_transfer,
}

-- The type that the inference crate has for an element type of the wire.
abbrev activation_dtype : TensorDtype → ActivationDtype
activation_dtype TensorDtype.f16 = ActivationDtype.f16
activation_dtype TensorDtype.f32 = ActivationDtype.f32
activation_dtype TensorDtype.bf16 = ActivationDtype.bf16

from_u8-eq-some : (v : ℕ) (d : TensorDtype) → from_u8 v ≡ some d → v ≡ to_u8 d
unfolding from_u8 to_u8
from_u8-eq-some zero d e = ground arith
from_u8-eq-some (suc zero) d e = ground arith
from_u8-eq-some (suc (suc zero)) d e = ground arith
from_u8-eq-some (suc (suc (suc v))) d e = cc

from_u8-to_u8 : (d : TensorDtype) → from_u8 (to_u8 d) ≡ some d
unfolding from_u8 to_u8
from_u8-to_u8 TensorDtype.f16 = refl
from_u8-to_u8 TensorDtype.f32 = refl
from_u8-to_u8 TensorDtype.bf16 = refl

handler_reads : (d : TensorDtype) → handler_input_dtype (to_u8 d) ≡ activation_dtype d
unfolding handler_input_dtype to_u8
handler_reads TensorDtype.f16 = refl
handler_reads TensorDtype.f32 = refl
handler_reads TensorDtype.bf16 = refl

mesh_reads : (d : TensorDtype) → from_u8 (handler_output_dtype (activation_dtype d)) ≡ some d
unfolding from_u8 handler_output_dtype
mesh_reads TensorDtype.f16 = refl
mesh_reads TensorDtype.f32 = refl
mesh_reads TensorDtype.bf16 = refl

-- The mesh and the pipeline handler agree on the tags: a tensor's tag is read by the handler as the
-- same type, the tag that the handler returns is read by the mesh as the same type, and exactly a
-- type's own tag decodes to it.
pub dtype_tags_agree :
    (d : TensorDtype) (v : ℕ)
    → (handler_input_dtype (to_u8 d) ≡ activation_dtype d)
      × (from_u8 (handler_output_dtype (activation_dtype d)) ≡ some d)
      × ((from_u8 v ≡ some d) ↔ (v ≡ to_u8 d))
dtype_tags_agree d v =
    (handler_reads d, mesh_reads d, (from_u8-eq-some v d, λ e. rw e (from_u8-to_u8 d)))

-- A normal number, a zero or an infinity.
abbrev IsExact : ℕ → Type 0
IsExact h = (h % 1024 ≡ 0) ⊎ (0 < h / 1024 % 32) × (h / 1024 % 32 < 31)

-- Bytes that are a whole number of such half-precision numbers.
abbrev AllExact : List ℕ → Type 0
AllExact [] = Unit
AllExact (a ∷ []) = ⊥
AllExact (a ∷ b ∷ rest) = (a < 256) × (b < 256) × IsExact (a + b * 2 ^ 8) × AllExact rest

exact_roundtrip : (h : ℕ) → h < 2 ^ 16 → IsExact h → f16_from_f32 (f32_from_f16 h) ≡ h
exact_roundtrip h lt e = rw (f16_from_f32-f32_from_f16 h lt) (ground arith)

u32_le_roundtrip :
    (f : ℕ)
    → f < 2 ^ 32
    → u32_from_le (f % 2 ^ 8) (f / 2 ^ 8 % 2 ^ 8) (f / 2 ^ 16 % 2 ^ 8) (f / 2 ^ 24) ≡ f
unfolding u32_from_le
u32_le_roundtrip f lt = omega arith

f32_to_f16-f16_to_f32 : (bytes : List ℕ) → AllExact bytes → f32_to_f16 (f16_to_f32 bytes) ≡ bytes
unfolding f32_to_f16 f16_to_f32
f32_to_f16-f16_to_f32 [] h = refl
f32_to_f16-f16_to_f32 (a ∷ []) h = absurd h
f32_to_f16-f16_to_f32 (a ∷ b ∷ rest) h =
    let lt : u16_from_le a b < 2 ^ 16 = unfold u16_from_le in omega arith in
    let f = f32_from_f16 (u16_from_le a b) in
    rw
      (
        u32_le_roundtrip f (f32_from_f16-lt (u16_from_le a b) lt),
        exact_roundtrip (u16_from_le a b) lt (unfold u16_from_le in h.2),
        f32_to_f16-f16_to_f32 rest h.3,
      )
      (unfold u16_to_le u16_from_le in ground arith)

pub length-f16_to_f32 : (bytes : List ℕ) → length (f16_to_f32 bytes) ≡ length bytes / 2 * 4
unfolding f16_to_f32 u32_to_le
length-f16_to_f32 [] = refl
length-f16_to_f32 (a ∷ []) = refl
length-f16_to_f32 (a ∷ b ∷ rest) = omega (arith, length-f16_to_f32 rest)

pub length-f32_to_f16 : (bytes : List ℕ) → length (f32_to_f16 bytes) ≡ length bytes / 4 * 2
unfolding f32_to_f16 u16_to_le
length-f32_to_f16 [] = refl
length-f32_to_f16 (a ∷ []) = refl
length-f32_to_f16 (a ∷ b ∷ []) = refl
length-f32_to_f16 (a ∷ b ∷ c ∷ []) = refl
length-f32_to_f16 (a ∷ b ∷ c ∷ d ∷ rest) = omega (arith, length-f32_to_f16 rest)

-- A conversion keeps the number of elements when the two types are the same or neither is BF16: the
-- bytes of n elements of the source type become the bytes of n elements of the target type.
pub length-convert_for_transfer :
    (bytes : List ℕ) (src target : TensorDtype) (n : ℕ)
    → (src ≡ target) ⊎ (src ≢ TensorDtype.bf16) × (target ≢ TensorDtype.bf16)
    → length bytes ≡ n * byte_size src
    → length (convert_for_transfer bytes src target) ≡ n * byte_size target
unfolding convert_for_transfer byte_size
length-convert_for_transfer bytes TensorDtype.f16 TensorDtype.f16 n ok h = h
length-convert_for_transfer bytes TensorDtype.f16 TensorDtype.f32 n ok h =
    omega (arith, length-f16_to_f32 bytes)
length-convert_for_transfer bytes TensorDtype.f32 TensorDtype.f16 n ok h =
    omega (arith, length-f32_to_f16 bytes)
length-convert_for_transfer bytes TensorDtype.f32 TensorDtype.f32 n ok h = h
length-convert_for_transfer bytes TensorDtype.bf16 TensorDtype.bf16 n ok h = h
length-convert_for_transfer bytes TensorDtype.bf16 TensorDtype.f16 n ok h = h
length-convert_for_transfer bytes TensorDtype.f16 TensorDtype.bf16 n ok h = h
length-convert_for_transfer bytes TensorDtype.bf16 TensorDtype.f32 n (inl e) h = cc
length-convert_for_transfer bytes TensorDtype.bf16 TensorDtype.f32 n (inr e) h = absurd (e.0 refl)
length-convert_for_transfer bytes TensorDtype.f32 TensorDtype.bf16 n (inl e) h = cc
length-convert_for_transfer bytes TensorDtype.f32 TensorDtype.bf16 n (inr e) h = absurd (e.1 refl)

-- Half-precision bytes sent as single precision and converted back are the same bytes, when each
-- number is normal, zero or infinite.
pub convert_for_transfer_roundtrip :
    (bytes : List ℕ)
    → AllExact bytes
    → convert_for_transfer
        (convert_for_transfer bytes TensorDtype.f16 TensorDtype.f32)
        TensorDtype.f32
        TensorDtype.f16
      ≡ bytes
unfolding convert_for_transfer
convert_for_transfer_roundtrip bytes h = f32_to_f16-f16_to_f32 bytes h
