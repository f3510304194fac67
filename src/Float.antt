-- ===== src/Float.antt =====
-- The `f64` operations that the mesh uses, as a parameter: IEEE 754 arithmetic is the processor's.
-- A definition that computes with floats takes such a record, and a theorem that needs a law of the
-- arithmetic names it as a hypothesis.
use hive_bear.Prelude.{ℕ, ◌+◌, ◌-◌, ◌*◌, ◌/◌, ◌^◌, Bool, ltb, leb, if◌then◌else◌}

pub record Float : Type 1 where
  pub F64 : Type 0
  -- `literal n k` is the literal n * 10 ^ -k; `of_nat` is `as f64`.
  pub literal : ℕ → ℕ → F64
  pub of_nat : ℕ → F64
  pub add : F64 → F64 → F64
  pub sub : F64 → F64 → F64
  pub mul : F64 → F64 → F64
  pub div : F64 → F64 → F64
  pub less : F64 → F64 → Bool
  pub less_eq : F64 → F64 → Bool
  -- `as u32` and `as u64` after `round()`, and without it: both saturate.
  pub round_u32 : F64 → ℕ
  pub trunc_u64 : F64 → ℕ
  -- `as f32`, read as an `f64` again; a sum or a quotient of two `f32` is that of `f64`, then this.
  pub round_f32 : F64 → F64

-- Fixed-point numbers of three digits, with truncated differences: an instance to run the model on.
abbrev pub fixed_point : Float
fixed_point = record {
  F64 = ℕ;
  literal = λ n k. n * 1000 / 10 ^ k;
  of_nat = λ n. n * 1000;
  add = λ a b. a + b;
  sub = λ a b. a - b;
  mul = λ a b. a * b / 1000;
  div = λ a b. a * 1000 / b;
  less = λ a b. ltb a b;
  less_eq = λ a b. leb a b;
  round_u32 = λ a. (a + 500) / 1000;
  trunc_u64 = λ a. a / 1000;
  round_f32 = λ a. a;
}

-- `f64::min` and `clamp`, of numbers.
abbrev pub min_f64 : (fl : Float) → fl.F64 → fl.F64 → fl.F64
min_f64 fl a b = if fl.less_eq a b then a else b

abbrev pub clamp : (fl : Float) → fl.F64 → fl.F64 → fl.F64 → fl.F64
clamp fl low high a = if fl.less a low then low else if fl.less high a then high else a
