-- ===== src/Prelude/Map/Distinct.antt =====
-- Maps in which no key stands twice, and the entries that a filter keeps.
use Prim.Native.Nat.{◌+◌}
use mathlib.Core.Path.{◌≡◌, refl}
use mathlib.Core.Bool.{Bool}
use mathlib.Core.List.{List, [], ◌∷◌}
use mathlib.Core.Option.{none, some}
use native.Mathlib.Omega.{arith}
use hive_bear.Prelude.Lists.{length}
use hive_bear.Prelude.Tests.{if◌then◌else◌}
use hive_bear.Prelude.Map.{lookup, insert, remove, lookup-insert, lookup-remove}

module _ {ℓ} {K V : Type ℓ} where
  -- `retain`.
  unfoldable pub retain : (K → V → Bool) → List (K × V) → List (K × V)
  retain p [] = []
  retain p ((j, w) ∷ m) = if p j w then (j, w) ∷ retain p m else retain p m

module _ {ℓ} {K V : Type ℓ} (dec : Discrete K) where
  abbrev pub Distinct : List (K × V) → Type ℓ
  Distinct [] = Unit
  Distinct ((j, w) ∷ m) = (lookup dec j m ≡ none) × Distinct m

  pub insert-Distinct :
      (k : K) (v : V) (m : List (K × V)) → Distinct m → Distinct (insert dec k v m)
  unfolding insert lookup
  insert-Distinct k v [] d = (refl, tt)
  insert-Distinct k v ((j, w) ∷ m) d =
      ground (arith, insert-Distinct k v m d.1, lookup-insert dec k j v m)

  pub remove-Distinct : (k : K) (m : List (K × V)) → Distinct m → Distinct (remove dec k m)
  unfolding remove
  remove-Distinct k [] d = tt
  remove-Distinct k ((j, w) ∷ m) d =
      ground (arith, remove-Distinct k m d.1, lookup-remove dec k j m)

  pub lookup-retain-none :
      (p : K → V → Bool) (k : K) (m : List (K × V))
      → lookup dec k m ≡ none
      → lookup dec k (retain p m) ≡ none
  unfolding lookup retain
  lookup-retain-none p k [] h = refl
  lookup-retain-none p k ((j, w) ∷ m) h = ground (arith, lookup-retain-none p k m)

  pub retain-Distinct : (p : K → V → Bool) (m : List (K × V)) → Distinct m → Distinct (retain p m)
  unfolding retain
  retain-Distinct p [] d = tt
  retain-Distinct p ((j, w) ∷ m) d =
      ground (arith, retain-Distinct p m d.1, lookup-retain-none p j m d.0)

  -- What `retain` keeps: exactly the entries that pass the test.
  pub lookup-retain :
      (p : K → V → Bool) (k : K) (m : List (K × V))
      → Distinct m
      → lookup dec k (retain p m)
        ≡ elim (lookup dec k m) [ none ↦ none | some v ↦ if p k v then some v else none ]
  unfolding lookup retain
  lookup-retain p k [] d = refl
  lookup-retain p k ((j, w) ∷ m) d =
      ground (arith, lookup-retain p k m d.1, lookup-retain-none p k m)

  pub length-insert_absent :
      (k : K) (v : V) (m : List (K × V))
      → lookup dec k m ≡ none
      → length (insert dec k v m) ≡ length m + 1
  unfolding lookup insert
  length-insert_absent k v [] h = omega arith
  length-insert_absent k v ((i, u) ∷ m) h = ground (arith, length-insert_absent k v m)
