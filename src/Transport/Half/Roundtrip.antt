-- ===== src/Transport/Half/Roundtrip.antt =====
-- What the two conversions of a single number do to every half-precision pattern.
use hive_bear.Prelude.{
  ℕ, ◌+◌, ◌-◌, ◌*◌, ◌/◌, ◌%◌, ◌^◌, ◌<◌, ◌≡◌, refl, Bool, true, arith, ltb, ltb→lt, ◌==◌,
  if◌then◌else◌,
}
use hive_bear.Transport.Half.{f16_from_f32, f32_from_f16}
use hive_bear.Transport.Half.Table.{all_halves, all_halves_sound}

-- What a pattern becomes on the way to single precision and back.
abbrev after_roundtrip : ℕ → ℕ
after_roundtrip h =
    let exponent = h / 1024 % 32 in
    let mantissa = h % 1024 in
    if exponent == 0
    then h - mantissa + mantissa / 2
    else if exponent == 31
    then (if mantissa == 0 then h else h / 2 ^ 15 * 2 ^ 15 + 0x7E00)
    else h

agrees : ℕ → Bool
agrees h = f16_from_f32 (f32_from_f16 h) == after_roundtrip h

agrees_table : all_halves agrees ≡ true
unfolding all_halves agrees f16_from_f32 f32_from_f16
agrees_table = refl

==→eq : (a b : ℕ) → (a == b) ≡ true → a ≡ b
==→eq a b h = ground arith

-- A half-precision pattern sent as single precision and brought back is itself when it is a normal
-- number, a zero or an infinity; a NaN becomes the quiet NaN of its sign; and a denormal comes back
-- with half its mantissa, rounded down.
pub f16_from_f32-f32_from_f16 :
    (h : ℕ) → h < 2 ^ 16 → f16_from_f32 (f32_from_f16 h) ≡ after_roundtrip h
f16_from_f32-f32_from_f16 h lt =
    ==→eq (f16_from_f32 (f32_from_f16 h)) (after_roundtrip h)
      (unfold agrees in all_halves_sound agrees agrees_table h lt)

fits : ℕ → Bool
fits h = ltb (f32_from_f16 h) (2 ^ 32)

fits_table : all_halves fits ≡ true
unfolding all_halves fits f32_from_f16
fits_table = refl

pub f32_from_f16-lt : (h : ℕ) → h < 2 ^ 16 → f32_from_f16 h < 2 ^ 32
f32_from_f16-lt h lt =
    ltb→lt (f32_from_f16 h) (2 ^ 32) (unfold fits in all_halves_sound fits fits_table h lt)

-- The magnitude of a normal single-precision pattern, in units of 2 ^ -150.
abbrev pub f32_value : ℕ → ℕ
f32_value b = (2 ^ 23 + b % 2 ^ 23) * 2 ^ (b / 2 ^ 23 % 256)

-- The magnitude of a finite half-precision pattern by IEEE 754, in the same units.
abbrev pub f16_value : ℕ → ℕ
f16_value h =
    let exponent = h / 1024 % 32 in
    let mantissa = h % 1024 in
    if exponent == 0 then mantissa * 2 ^ 126 else (1024 + mantissa) * 2 ^ (exponent + 125)

-- The test behind the two theorems below: a denormal decodes to half its magnitude, a normal number
-- to its own.
value_agrees : ℕ → Bool
value_agrees h =
    if h % 2 ^ 15 == 0
    then true
    else if h / 1024 % 32 == 31
    then true
    else if h / 1024 % 32 == 0
    then f32_value (f32_from_f16 h) * 2 == f16_value h
    else f32_value (f32_from_f16 h) == f16_value h

value_table : all_halves value_agrees ≡ true
unfolding all_halves value_agrees f32_from_f16
value_table = refl

normal_case :
    (h a : ℕ)
    → (if h % 2 ^ 15 == 0
        then true
        else if h / 1024 % 32 == 31
        then true
        else if h / 1024 % 32 == 0
        then a * 2 == f16_value h
        else a == f16_value h)
      ≡ true
    → 0 < h / 1024 % 32
    → h / 1024 % 32 < 31
    → a ≡ f16_value h
normal_case h a t lo hi = ground arith

denormal_case :
    (h a : ℕ)
    → (if h % 2 ^ 15 == 0
        then true
        else if h / 1024 % 32 == 31
        then true
        else if h / 1024 % 32 == 0
        then a * 2 == f16_value h
        else a == f16_value h)
      ≡ true
    → h / 1024 % 32 ≡ 0
    → 0 < h % 1024
    → a * 2 ≡ h % 1024 * 2 ^ 126
denormal_case h a t z m = ground arith

-- Every normal half-precision number is decoded to a single-precision number of the same magnitude.
pub f32_value-f32_from_f16 :
    (h : ℕ)
    → h < 2 ^ 16
    → 0 < h / 1024 % 32
    → h / 1024 % 32 < 31
    → f32_value (f32_from_f16 h) ≡ f16_value h
f32_value-f32_from_f16 h lt =
    normal_case h (f32_value (f32_from_f16 h))
      (unfold value_agrees in all_halves_sound value_agrees value_table h lt)

-- Every denormal half-precision number, of mantissa m > 0 and of magnitude m * 2 ^ -24, is decoded to
-- a single-precision number of half that magnitude.
pub f32_value-f32_from_f16_denormal :
    (h : ℕ)
    → h < 2 ^ 16
    → h / 1024 % 32 ≡ 0
    → 0 < h % 1024
    → f32_value (f32_from_f16 h) * 2 ≡ h % 1024 * 2 ^ 126
f32_value-f32_from_f16_denormal h lt =
    denormal_case h (f32_value (f32_from_f16 h))
      (unfold value_agrees in all_halves_sound value_agrees value_table h lt)
