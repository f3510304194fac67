-- ===== src/Transport/Half.antt =====
-- Half-precision conversion of activation tensors, of
-- crates/hivebear-mesh/src/transport/tensor_transfer.rs. A float is its bit pattern: an `f32` is a
-- number below 2 ^ 32 (`to_bits`, `from_bits`), an `f16` one below 2 ^ 16.
pub mod Table
pub mod Roundtrip
use Prim.Native.Nat.{bit_and, bit_or}
use hive_bear.Prelude.{
  ℕ, zero, suc, ◌+◌, ◌-◌, ◌*◌, ◌/◌, ◌%◌, ◌^◌, Bool, List, [], ◌∷◌, leb, ltb, ◌==◌, if◌then◌else◌,
}

-- `f16_from_f32`. The signed `new_exp` is kept as `new_exp + 127`, which is not negative.
unfoldable pub f16_from_f32 : ℕ → ℕ
f16_from_f32 bits =
    let sign = bit_and (bits / 2 ^ 16) 0x8000 in
    let exponent = bit_and (bits / 2 ^ 23) 0xFF in
    let mantissa = bit_and bits 0x7FFFFF in
    let new_exp_127 = exponent + 15 in
    if exponent == 0xFF
    then (if mantissa == 0 then bit_or sign 0x7C00 else bit_or sign 0x7E00) % 2 ^ 16
    else if leb (31 + 127) new_exp_127
    then bit_or sign 0x7C00 % 2 ^ 16
    else if leb new_exp_127 127
    then (if ltb new_exp_127 (127 - 10)
        then sign % 2 ^ 16
        else bit_or sign (bit_or mantissa 0x800000 / 2 ^ (1 + 127 - new_exp_127) / 2 ^ 13) % 2 ^ 16)
    else bit_or (bit_or sign ((new_exp_127 - 127) * 2 ^ 10)) (mantissa / 2 ^ 13) % 2 ^ 16

-- `while (m & 0x400) == 0 { m <<= 1; e += 1; }`, on fuel.
unfoldable normalize : ℕ → ℕ → ℕ → ℕ × ℕ
normalize zero m e = (m, e)
normalize (suc fuel) m e =
    let rest = normalize fuel (m * 2) (e + 1) in if bit_and m 0x400 == 0 then rest else (m, e)

-- The branch of `f32_from_f16` for a denormal; ten shifts bring the top bit of any mantissa up.
unfoldable denormal : ℕ → ℕ → ℕ
unfolding normalize
denormal sign mantissa =
    let (m, e) = normalize 10 mantissa 1 in
    bit_or (bit_or sign ((127 - 15 + 1 - e) * 2 ^ 23)) (bit_and m 0x3FF * 2 ^ 13)

-- `f32_from_f16`.
unfoldable pub f32_from_f16 : ℕ → ℕ
unfolding denormal
f32_from_f16 h =
    let sign = bit_and h 0x8000 * 2 ^ 16 in
    let exponent = bit_and (h / 2 ^ 10) 0x1F in
    let mantissa = bit_and h 0x3FF in
    if exponent == 0
    then (if mantissa == 0 then sign else denormal sign mantissa)
    else if exponent == 31
    then (if mantissa == 0 then bit_or sign 0x7F800000 else bit_or sign 0x7FC00000)
    else bit_or (bit_or sign ((exponent + 127 - 15) * 2 ^ 23)) (mantissa * 2 ^ 13)
