-- ===== src/Swarm/Formation/Matching.antt =====
-- Which model a capacity serves: crates/hivebear-mesh/src/swarm/formation.rs.
use mathlib.Core.Path.{subst}
use mathlib.Core.List.{Memᴰ}
use hive_bear.Prelude.{
  ℕ, ◌≤◌, ◌<◌, ◌≡◌, ◌⊎◌, refl, Option, none, some, List, [], ◌∷◌, arith, keep, ltb, leb, Bool-cases,
  inl, inr, All,
}
use hive_bear.Float.{Float}
use hive_bear.Swarm.Formation.Models.{
  ModelSizeClass, usable, larger, largest, best_model_for_capacity,
}

module _ {fl : Float} where
  -- The best of the models that fit a number of bytes, if any fits.
  abbrev pub IsBest : ℕ → List (ModelSizeClass fl) → Option (ModelSizeClass fl) → Type 0
  IsBest bytes models none = All (λ n. bytes < n.size_bytes) models
  IsBest bytes models (some m) =
      Memᴰ m models
      × (m.size_bytes ≤ bytes)
      × All (λ n. (bytes < n.size_bytes) ⊎ (n.size_bytes ≤ m.size_bytes)) models

  All-widen :
      (bytes a b : ℕ) (ms : List (ModelSizeClass fl))
      → a ≤ b
      → All (λ n. (bytes < n.size_bytes) ⊎ (n.size_bytes ≤ a)) ms
      → All (λ n. (bytes < n.size_bytes) ⊎ (n.size_bytes ≤ b)) ms
  All-widen bytes a b [] h v = tt
  All-widen bytes a b (n ∷ ms) h (inl l, v) = (inl l, All-widen bytes a b ms h v)
  All-widen bytes a b (n ∷ ms) h (inr l, v) =
      (inr (omega (arith, l, h)), All-widen bytes a b ms h v)

  All-too_large :
      (bytes b : ℕ) (ms : List (ModelSizeClass fl))
      → All (λ n. bytes < n.size_bytes) ms
      → All (λ n. (bytes < n.size_bytes) ⊎ (n.size_bytes ≤ b)) ms
  All-too_large bytes b [] v = tt
  All-too_large bytes b (n ∷ ms) v = (inl v.0, All-too_large bytes b ms v.1)

  larger-IsBest :
      (bytes : ℕ) (m : ModelSizeClass fl) (ms : List (ModelSizeClass fl))
      (o : Option (ModelSizeClass fl))
      → m.size_bytes ≤ bytes
      → IsBest bytes ms o
      → IsBest bytes (m ∷ ms) (larger m o)
  unfolding larger
  larger-IsBest bytes m ms none h v =
      (Memᴰ.head refl, h, (inr (omega arith), All-too_large bytes m.size_bytes ms v))
  larger-IsBest bytes m ms (some n) h v = elim (Bool-cases (ltb n.size_bytes m.size_bytes)) [
    | inl e ↦ rw e (
      Memᴰ.head refl,
      h,
      (inr (omega arith), All-widen bytes n.size_bytes m.size_bytes ms (ground (arith, e)) v.2),
    )
    | inr e ↦ rw e (Memᴰ.tail v.0, v.1, (inr (ground (arith, e)), v.2))
  ]

  skip-IsBest :
      (bytes : ℕ) (m : ModelSizeClass fl) (ms : List (ModelSizeClass fl))
      (o : Option (ModelSizeClass fl))
      → bytes < m.size_bytes
      → IsBest bytes ms o
      → IsBest bytes (m ∷ ms) o
  skip-IsBest bytes m ms none h v = (h, v)
  skip-IsBest bytes m ms (some n) h v = (Memᴰ.tail v.0, v.1, (inl h, v.2))

  largest-IsBest :
      (bytes : ℕ) (ms : List (ModelSizeClass fl))
      → IsBest bytes ms (largest (keep (λ m. leb m.size_bytes bytes) ms))
  unfolding largest
  largest-IsBest bytes [] = tt
  largest-IsBest bytes (m ∷ ms) =
      let fitting = keep (λ (n : ModelSizeClass fl). leb n.size_bytes bytes) ms in
      elim (Bool-cases (leb m.size_bytes bytes)) [
        | inl e ↦ rw e (
            larger-IsBest bytes m ms (largest fitting) (ground (arith, e))
              (largest-IsBest bytes ms))
        | inr e ↦
            rw e (
              skip-IsBest bytes m ms (largest fitting) (ground (arith, e))
                (largest-IsBest bytes ms))
      ]

  -- The model that `best_model_for_capacity` gives is one of the models, its weights fit in 85 of 100
  -- of the capacity, and no model that fits is larger; it gives none only if no model fits.
  pub best_model_for_capacity-IsBest :
      (capacity_bytes : ℕ) (models : List (ModelSizeClass fl))
      → IsBest (usable fl capacity_bytes) models (best_model_for_capacity capacity_bytes models)
  unfolding best_model_for_capacity
  best_model_for_capacity-IsBest capacity_bytes models =
      largest-IsBest (usable fl capacity_bytes) models

  pub best_model_for_capacity-Memᴰ :
      (capacity_bytes : ℕ) (models : List (ModelSizeClass fl)) (m : ModelSizeClass fl)
      → best_model_for_capacity capacity_bytes models ≡ some m
      → Memᴰ m models
  best_model_for_capacity-Memᴰ capacity_bytes models m e =
      (subst (IsBest (usable fl capacity_bytes) models) e
        (best_model_for_capacity-IsBest capacity_bytes models)).0
