-- ===== src/Transport/Half/Table.antt =====
-- A Boolean test over every half-precision pattern, by evaluation.
use mathlib.Core.Path.{subst}
use hive_bear.Prelude.{
  ℕ, zero, suc, ◌+◌, ◌*◌, ◌/◌, ◌%◌, ◌^◌, ◌<◌, ◌≡◌, Bool, true, false, if◌then◌else◌, Bool-cases,
  inl, inr, arith,
}

module _ (p : ℕ → Bool) where
  -- Whether the numbers from `first` on, as many as given, pass the test.
  run_passes : (count first : ℕ) → Bool
  run_passes zero first = true
  run_passes (suc count) first = if p first then run_passes count (first + 1) else false

  run_passes_at :
      (count first k : ℕ) → run_passes count first ≡ true → k < count → p (first + k) ≡ true
  unfolding run_passes
  run_passes_at zero first k h lt = absurd (omega (arith, lt))
  run_passes_at (suc count) first zero h lt =
      let e : first + 0 ≡ first = omega arith in
      rw e (elim (Bool-cases (p first)) [ inl y ↦ y | inr n ↦ absurd (ground (arith, rw n at h)) ])
  run_passes_at (suc count) first (suc k) h lt =
      let e : first + suc k ≡ first + 1 + k = omega arith in
      elim (Bool-cases (p first)) [
        | inl y ↦ rw e (run_passes_at count (first + 1) k (rw y at h) (omega (arith, lt)))
        | inr n ↦ absurd (ground (arith, rw n at h))
      ]

-- Row by row, so that no recursion is deep.
unfoldable pub all_halves : (ℕ → Bool) → Bool
unfolding run_passes
all_halves p = run_passes (λ row. run_passes p 1024 (row * 1024)) 64 0

pub all_halves_sound : (p : ℕ → Bool) → all_halves p ≡ true → (h : ℕ) → h < 2 ^ 16 → p h ≡ true
unfolding all_halves
all_halves_sound p all h lt =
    let e : h / 1024 * 1024 + h % 1024 ≡ h = omega arith in
    let z : 0 + h / 1024 ≡ h / 1024 = omega arith in
    let row =
      run_passes_at (λ row. run_passes p 1024 (row * 1024)) 64 0 (h / 1024) all (omega arith) in
    subst (λ x. p x ≡ true) e
      (run_passes_at p 1024 (h / 1024 * 1024) (h % 1024) (rw z at row) (omega arith))
