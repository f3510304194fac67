-- ===== src/Prelude/Counts.antt =====
-- How often a number stands in a list.
use Prim.Native.Nat.{ℕ, ◌+◌, suc}
use mathlib.Core.Path.{◌≡◌, refl}
use mathlib.Core.Logic.{inl, inr}
use mathlib.Core.Bool.{Bool}
use mathlib.Core.List.{List, [], ◌∷◌, ◌++◌, map}
use native.Mathlib.Omega.{arith}
use hive_bear.Prelude.Tests.{◌==◌, if◌then◌else◌, Bool-cases}
use hive_bear.Prelude.Sort.{insert_by, sort_by}

abbrev pub count : ℕ → List ℕ → ℕ
count x [] = 0
count x (y ∷ ys) = if y == x then suc (count x ys) else count x ys

pub count-append : (x : ℕ) (ys zs : List ℕ) → count x (ys ++ zs) ≡ count x ys + count x zs
count-append x [] zs = omega arith
count-append x (y ∷ ys) zs = ground (arith, count-append x ys zs)

module _ {ℓ} {A : Type ℓ} (f : A → ℕ) (le : A → A → Bool) (x : ℕ) where
  count-insert_by :
      (a : A) (bs : List A) → count x (map f (insert_by le a bs)) ≡ count x (f a ∷ map f bs)
  unfolding insert_by
  count-insert_by a [] = refl
  count-insert_by a (b ∷ bs) = elim (Bool-cases (le a b)) [
    | inl e ↦ rw e refl
    | inr e ↦ rw e (ground (arith, count-insert_by a bs))
  ]

  -- Sorting changes no count.
  pub count-sort_by : (items : List A) → count x (map f (sort_by le items)) ≡ count x (map f items)
  unfolding sort_by
  count-sort_by [] = refl
  count-sort_by (a ∷ items) =
      ground (arith, count-sort_by items, count-insert_by a (sort_by le items))
