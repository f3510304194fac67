-- ===== src/Recommender/Ranking.antt =====
-- What `recommend` gives: crates/hivebear-core/src/recommender/scoring.rs.
use hive_bear.Prelude.{
  ℕ, zero, suc, ◌≤◌, ◌≡◌, refl, true, false, Option, none, some, List, [], ◌∷◌, arith, length,
  length-take, take, Bool-cases, inl, inr, All,
}
use hive_bear.Prelude.Sort.{sort_by, sort_by-IsSorted, All-sort_by, IsSorted}
use mathlib.Core.List.{Memᴰ}
use hive_bear.Float.{Float}
use hive_bear.Hardware.{Quantization, HardwareProfile}
use hive_bear.Recommender.Models.{ModelEntry}
use hive_bear.Recommender.Estimates.{estimate_memory}
use hive_bear.Recommender.{
  ModelRecommendation, Limits, quant_levels, limits_of, recommendation, fits, keep_best, best_quant,
  allowed, push_some, collect, by_score, recommend,
}

module _ {fl : Float} where
  -- A recommendation of one of the models that the platform allows, by estimates that keep the limits.
  abbrev pub IsSound : Limits fl → List (ModelEntry fl) → ModelRecommendation fl → Type 0
  IsSound l models r =
      (m : ModelEntry fl) × Memᴰ m models
      × (r.model_id ≡ m.id)
      × (allowed l.profile m ≡ true)
      × (r.estimated_memory_usage_bytes ≡ estimate_memory m r.quantization 4096)
      × (r.estimated_memory_usage_bytes ≤ l.effective_memory)
      × (fl.less r.estimated_tokens_per_sec l.min_tok_s ≡ false)

  -- What holds of the best recommendation so far, if there is one.
  abbrev IfSome : (ModelRecommendation fl → Type 0) → Option (ModelRecommendation fl) → Type 0
  IfSome P none = Unit
  IfSome P (some r) = P r

  keep_best-IfSome :
      (P : ModelRecommendation fl → Type 0) (best : Option (ModelRecommendation fl))
      (new : ModelRecommendation fl)
      → IfSome P best
      → P new
      → IfSome P (keep_best best new)
  unfolding keep_best
  keep_best-IfSome P none new p q = q
  keep_best-IfSome P (some r) new p q = elim (Bool-cases (fl.less_eq new.score r.score)) [
    | inl e ↦ rw e p
    | inr e ↦ rw e q
  ]

  best_quant-IfSome :
      (P : ModelRecommendation fl → Type 0) (l : Limits fl) (m : ModelEntry fl)
      (quants : List Quantization) (best : Option (ModelRecommendation fl))
      → ((q : Quantization) → fits l m q ≡ true → P (recommendation l m q))
      → IfSome P best
      → IfSome P (best_quant l m quants best)
  unfolding best_quant
  best_quant-IfSome P l m [] best sound p = p
  best_quant-IfSome P l m (q ∷ quants) best sound p = elim (Bool-cases (fits l m q)) [
    | inl e ↦ rw e (
        best_quant-IfSome P l m quants (keep_best best (recommendation l m q)) sound
          (keep_best-IfSome P best (recommendation l m q) p (sound q e)))
    | inr e ↦ rw e (best_quant-IfSome P l m quants best sound p)
  ]

  push_some-All :
      (P : ModelRecommendation fl → Type 0) (o : Option (ModelRecommendation fl))
      (rest : List (ModelRecommendation fl))
      → IfSome P o
      → All P rest
      → All P (push_some o rest)
  unfolding push_some
  push_some-All P none rest p q = q
  push_some-All P (some r) rest p q = (p, q)

  recommendation-IsSound :
      (l : Limits fl) (m : ModelEntry fl) (models : List (ModelEntry fl)) (q : Quantization)
      → Memᴰ m models
      → allowed l.profile m ≡ true
      → fits l m q ≡ true
      → IsSound l models (recommendation l m q)
  unfolding recommendation fits
  recommendation-IsSound l m models q mem ok h =
      (m, mem, refl, ok, refl, ground (arith, h), ground (arith, h))

  collect-IsSound :
      (l : Limits fl) (all models : List (ModelEntry fl))
      → ((m : ModelEntry fl) → Memᴰ m models → Memᴰ m all)
      → All (IsSound l all) (collect l models)
  unfolding collect
  collect-IsSound l all [] sub = tt
  collect-IsSound l all (m ∷ models) sub =
      let rest = collect-IsSound l all models (λ n h. sub n (Memᴰ.tail h)) in
      elim (Bool-cases (allowed l.profile m)) [
        | inl ok ↦ rw ok (
            push_some-All (IsSound l all) (best_quant l m quant_levels none) (collect l models)
              (best_quant-IfSome (IsSound l all) l m quant_levels none
                (λ q h. recommendation-IsSound l m all q (sub m (Memᴰ.head refl)) ok h) tt)
              rest)
        | inr e ↦ rw e rest
      ]

  All-take :
      (P : ModelRecommendation fl → Type 0) (n : ℕ) (rs : List (ModelRecommendation fl))
      → All P rs
      → All P (take n rs)
  All-take P zero rs p = tt
  All-take P (suc n) [] p = tt
  All-take P (suc n) (r ∷ rs) p = (p.0, All-take P n rs p.1)

  IsSorted-take :
      (n : ℕ) (rs : List (ModelRecommendation fl))
      → IsSorted by_score rs
      → IsSorted by_score (take n rs)
  IsSorted-take zero rs s = tt
  IsSorted-take (suc n) [] s = tt
  IsSorted-take (suc n) (r ∷ rs) s =
      (All-take (λ y. by_score r y ≡ true) n rs s.0, IsSorted-take n rs s.1)

  -- Every recommendation is of one of the given models that the platform allows, its estimated memory is
  -- that of the model in its quantization and fits in the effective memory, its estimated speed is not
  -- below the wanted one, and there are at most as many recommendations as asked for.
  pub recommend-IsSound :
      (profile : HardwareProfile fl) (models : List (ModelEntry fl)) (fraction min_tok_s : fl.F64)
      (top_n : ℕ)
      → let recs = recommend profile models fraction min_tok_s top_n in
        All (IsSound (limits_of profile fraction min_tok_s) models) recs × (length recs ≤ top_n)
  unfolding recommend limits_of
  recommend-IsSound profile models fraction min_tok_s top_n =
      let l = limits_of profile fraction min_tok_s in
      let recs = collect l models in
      (
        All-take (IsSound l models) top_n (sort_by by_score recs) (
            All-sort_by (IsSound l models) by_score recs
              (collect-IsSound l models models (λ m h. h))),
        omega (arith, length-take top_n (sort_by by_score recs)),
      )

  -- If the comparison of scores is that of numbers (no NaN), no recommendation stands before one with a
  -- higher score.
  pub recommend-IsSorted :
      (profile : HardwareProfile fl) (models : List (ModelEntry fl)) (fraction min_tok_s : fl.F64)
      (top_n : ℕ)
      → ((x y : fl.F64) → fl.less x y ≡ true → fl.less y x ≡ false)
      → ((x y z : fl.F64) → fl.less x y ≡ false → fl.less y z ≡ false → fl.less x z ≡ false)
      → IsSorted by_score (recommend profile models fraction min_tok_s top_n)
  unfolding recommend
  recommend-IsSorted profile models fraction min_tok_s top_n asym trans =
      let recs = collect (limits_of profile fraction min_tok_s) models in
      IsSorted-take top_n (sort_by by_score recs) (
        sort_by-IsSorted by_score (λ a b h. ground (arith, asym a.score b.score, h))
          (λ a b c h k. ground (arith, trans a.score b.score c.score, h, k)) recs)
