-- ===== src/Recommender/BestQuant.antt =====
-- The quantization that is chosen for a model: crates/hivebear-core/src/recommender/scoring.rs.
use hive_bear.Prelude.{
  ◌≡◌, ◌≤◌, ◌⊎◌, refl, true, false, Option, none, some, List, [], ◌∷◌, arith, Bool-cases, inl, inr,
  All,
}
use mathlib.Core.List.{Memᴰ}
use hive_bear.Float.{Float}
use hive_bear.Hardware.{Quantization}
use hive_bear.Recommender.Models.{ModelEntry}
use hive_bear.Recommender.Estimates.{estimate_memory, estimate_tokens_per_sec}
use hive_bear.Recommender.{
  ModelRecommendation, Limits, quant_levels, recommendation, fits, keep_best, best_quant,
}

less_eq_refl :
    (fl : Float)
    → ((x y : fl.F64) → fl.less_eq x y ≡ false → fl.less_eq y x ≡ true)
    → (x : fl.F64) → fl.less_eq x x ≡ true
less_eq_refl fl total x = elim (Bool-cases (fl.less_eq x x)) [ inl e ↦ e | inr e ↦ total x x e ]

module _ {fl : Float} where
  -- A quantization that keeps the limits: the estimated memory is not above what there is, and the
  -- estimated speed is not below what is wanted.
  abbrev pub IsFit : Limits fl → ModelEntry fl → Quantization → Type 0
  IsFit l m q =
      (estimate_memory m q 4096 ≤ l.effective_memory)
      × (fl.less (estimate_tokens_per_sec m q l.bandwidth_gbps) l.min_tok_s ≡ false)

  -- The recommendation of one of the quantizations, and one that keeps the limits.
  abbrev pub IsChosen :
      Limits fl → ModelEntry fl → List Quantization → ModelRecommendation fl → Type 0
  IsChosen l m quants r =
      (q : Quantization) × Memᴰ q quants × IsFit l m q × (r ≡ recommendation l m q)

  -- The best of the quantizations that keep the limits: it is of one of them, none of them has a higher
  -- score, and there is none only if no quantization keeps the limits.
  abbrev pub IsBestQuant :
      Limits fl → ModelEntry fl → List Quantization → Option (ModelRecommendation fl) → Type 0
  IsBestQuant l m quants none = All (λ q. ¬ IsFit l m q) quants
  IsBestQuant l m quants (some r) =
      IsChosen l m quants r
      × All (λ q. (¬ IsFit l m q) ⊎ (fl.less_eq (recommendation l m q).score r.score ≡ true)) quants

  fits-IsFit :
      (l : Limits fl) (m : ModelEntry fl) (q : Quantization) → fits l m q ≡ true → IsFit l m q
  unfolding fits
  fits-IsFit l m q h = (ground arith, ground arith)

  fits_not-IsFit :
      (l : Limits fl) (m : ModelEntry fl) (q : Quantization) → fits l m q ≡ false → ¬ IsFit l m q
  unfolding fits
  fits_not-IsFit l m q h fit = ground (arith, h, fit.0, fit.1)

  -- The part of the score, over a list of quantizations that are looked at.
  abbrev IsTop :
      Limits fl → ModelEntry fl → List Quantization → Option (ModelRecommendation fl) → Type 0
  IsTop l m quants none = All (λ q. ¬ IsFit l m q) quants
  IsTop l m quants (some r) =
      All (λ q. (¬ IsFit l m q) ⊎ (fl.less_eq (recommendation l m q).score r.score ≡ true)) quants

  abbrev IfChosen :
      Limits fl → ModelEntry fl → List Quantization → Option (ModelRecommendation fl) → Type 0
  IfChosen l m quants none = Unit
  IfChosen l m quants (some r) = IsChosen l m quants r

  keep_best-IfChosen :
      (l : Limits fl) (m : ModelEntry fl) (quants : List Quantization)
      (best : Option (ModelRecommendation fl)) (new : ModelRecommendation fl)
      → IfChosen l m quants best
      → IsChosen l m quants new
      → IfChosen l m quants (keep_best best new)
  unfolding keep_best
  keep_best-IfChosen l m quants none new p c = c
  keep_best-IfChosen l m quants (some r) new p c =
      elim (Bool-cases (fl.less_eq new.score r.score)) [ inl e ↦ rw e p | inr e ↦ rw e c ]

  -- `quants` are what is left of `all`.
  best_quant-IfChosen :
      (l : Limits fl) (m : ModelEntry fl) (all quants : List Quantization)
      (best : Option (ModelRecommendation fl))
      → ((q : Quantization) → Memᴰ q quants → Memᴰ q all)
      → IfChosen l m all best
      → IfChosen l m all (best_quant l m quants best)
  unfolding best_quant
  best_quant-IfChosen l m all [] best sub p = p
  best_quant-IfChosen l m all (q ∷ quants) best sub p =
      let later : (x : Quantization) → Memᴰ x quants → Memᴰ x all = λ x h. sub x (Memᴰ.tail h) in
      elim (Bool-cases (fits l m q)) [
        | inl e ↦
            let here : IsChosen l m all (recommendation l m q) =
              (q, sub q (Memᴰ.head refl), fits-IsFit l m q e, refl) in
            rw e (
              best_quant-IfChosen l m all quants (keep_best best (recommendation l m q)) later
                (keep_best-IfChosen l m all best (recommendation l m q) p here))
        | inr e ↦ rw e (best_quant-IfChosen l m all quants best later p)
      ]

  best_of :
      (l : Limits fl) (m : ModelEntry fl) (quants : List Quantization)
      (o : Option (ModelRecommendation fl))
      → IfChosen l m quants o
      → IsTop l m quants o
      → IsBestQuant l m quants o
  best_of l m quants none p t = t
  best_of l m quants (some r) p t = (p, t)

  -- Nothing is lost: a best recommendation so far is followed by one that is at least as good.
  abbrev Beats : Option (ModelRecommendation fl) → Option (ModelRecommendation fl) → Type 0
  Beats none o = Unit
  Beats (some b) none = ⊥
  Beats (some b) (some r) = fl.less_eq b.score r.score ≡ true

  module _ (total : (x y : fl.F64) → fl.less_eq x y ≡ false → fl.less_eq y x ≡ true)
      (trans : (x y z : fl.F64)
        → fl.less_eq x y ≡ true
        → fl.less_eq y z ≡ true
        → fl.less_eq x z ≡ true) where
    Beats-refl : (o : Option (ModelRecommendation fl)) → Beats o o
    Beats-refl none = tt
    Beats-refl (some r) = less_eq_refl fl total r.score

    Beats-trans : (a b c : Option (ModelRecommendation fl)) → Beats a b → Beats b c → Beats a c
    Beats-trans none b c h k = tt
    Beats-trans (some a) none c h k = absurd h
    Beats-trans (some a) (some b) none h k = k
    Beats-trans (some a) (some b) (some c) h k = trans a.score b.score c.score h k

    keep_best-Beats :
        (best : Option (ModelRecommendation fl)) (new : ModelRecommendation fl)
        → Beats best (keep_best best new) × Beats (some new) (keep_best best new)
    unfolding keep_best
    keep_best-Beats none new = (tt, less_eq_refl fl total new.score)
    keep_best-Beats (some r) new = elim (Bool-cases (fl.less_eq new.score r.score)) [
      | inl e ↦ rw e (less_eq_refl fl total r.score, e)
      | inr e ↦ rw e (total new.score r.score e, less_eq_refl fl total new.score)
    ]

    module _ (l : Limits fl) (m : ModelEntry fl) where
      IsTop-fits :
          (q : Quantization) (quants : List Quantization) (o : Option (ModelRecommendation fl))
          → Beats (some (recommendation l m q)) o
          → IsTop l m quants o
          → IsTop l m (q ∷ quants) o
      IsTop-fits q quants none h v = absurd h
      IsTop-fits q quants (some r) h v = (inr h, v)

      IsTop-skips :
          (q : Quantization) (quants : List Quantization) (o : Option (ModelRecommendation fl))
          → (¬ IsFit l m q)
          → IsTop l m quants o
          → IsTop l m (q ∷ quants) o
      IsTop-skips q quants none h v = (h, v)
      IsTop-skips q quants (some r) h v = (inl h, v)

      best_quant-Beats :
          (quants : List Quantization) (best : Option (ModelRecommendation fl))
          → Beats best (best_quant l m quants best)
      unfolding best_quant
      best_quant-Beats [] best = Beats-refl best
      best_quant-Beats (q ∷ quants) best = elim (Bool-cases (fits l m q)) [
        | inl e ↦
            let next = keep_best best (recommendation l m q) in
            rw e (
              Beats-trans best next (best_quant l m quants next)
                (keep_best-Beats best (recommendation l m q)).0 (best_quant-Beats quants next))
        | inr e ↦ rw e (best_quant-Beats quants best)
      ]

      best_quant-best :
          (quants : List Quantization) (best : Option (ModelRecommendation fl))
          → IsTop l m quants (best_quant l m quants best)
      unfolding best_quant
      best_quant-best [] none = tt
      best_quant-best [] (some r) = tt
      best_quant-best (q ∷ quants) best = elim (Bool-cases (fits l m q)) [
        | inl e ↦
            let new = recommendation l m q in
            let next = keep_best best new in
            let o = best_quant l m quants next in
            rw e (
              IsTop-fits q quants o
                (Beats-trans (some new) next o (keep_best-Beats best new).1
                  (best_quant-Beats quants next))
                (best_quant-best quants next))
        | inr e ↦ rw e (
            IsTop-skips q quants (best_quant l m quants best) (fits_not-IsFit l m q e)
              (best_quant-best quants best))
      ]

  -- If scores compare as numbers do, the recommendation for a model is that of a quantization which
  -- keeps the limits of memory and speed and has the highest score among those that do; a model gets
  -- none only if no quantization keeps the limits.
  pub best_quant-IsBestQuant :
      (l : Limits fl) (m : ModelEntry fl)
      → ((x y : fl.F64) → fl.less_eq x y ≡ false → fl.less_eq y x ≡ true)
      → ((x y z : fl.F64) → fl.less_eq x y ≡ true → fl.less_eq y z ≡ true → fl.less_eq x z ≡ true)
      → IsBestQuant l m quant_levels (best_quant l m quant_levels none)
  best_quant-IsBestQuant l m total trans =
      best_of l m quant_levels (best_quant l m quant_levels none)
        (best_quant-IfChosen l m quant_levels quant_levels none (λ q h. h) tt)
        (best_quant-best total trans l m quant_levels none)
