-- ===== src/Recommender/Community.antt =====
-- Community benchmarks blended into recommendations: crates/hivebear-core/src/recommender/community.rs.
use mathlib.Core.Path.{subst}
use mathlib.Core.List.Memᴰ
use mathlib.Core.List.{Memᴰ}
use hive_bear.Prelude.{
  ℕ, ◌≡◌, ◌⊎◌, sym, refl, ap, ◌∙◌, Bool, true, ◌&&◌, Option, none, some, List, [], ◌∷◌, map, min,
  keep, if◌then◌else◌, is_yes, Bool-cases, inl, inr,
}
use hive_bear.Prelude.Text.{Text, text_dec}
use hive_bear.Float.{Float, clamp}
use hive_bear.Hardware.{quantization_name}
use hive_bear.Recommender.{ModelRecommendation}

-- What `merge_community_data` reads of a `CommunityBenchmarkSummary`.
pub record CommunityBenchmarkSummary (fl : Float) : Type 0 where
  pub model_id : Text
  pub quantization : Text
  pub sample_count : ℕ
  pub tokens_per_sec_p50 : fl.F64
  pub hardware_similarity : fl.F64

module _ {fl : Float} where
  open fl use {literal, of_nat, add, sub, mul, div, less, less_eq, round_f32}

  unfoldable pub matches : ModelRecommendation fl → CommunityBenchmarkSummary fl → Bool
  matches rec s =
      is_yes (text_dec s.model_id rec.model_id)
      && is_yes (text_dec s.quantization (quantization_name rec.quantization))

  -- `max_by(hardware_similarity)`: the last of the largest.
  unfoldable pub more_similar :
      Option (CommunityBenchmarkSummary fl)
      → CommunityBenchmarkSummary fl
      → CommunityBenchmarkSummary fl
  more_similar none s = s
  more_similar (some best) s =
      if less s.hardware_similarity best.hardware_similarity then best else s

  unfoldable pub most_similar :
      Option (CommunityBenchmarkSummary fl)
      → List (CommunityBenchmarkSummary fl)
      → Option (CommunityBenchmarkSummary fl)
  most_similar best [] = best
  most_similar best (s ∷ ss) = most_similar (some (more_similar best s)) ss

  unfoldable pub blended : fl.F64 → CommunityBenchmarkSummary fl → fl.F64
  blended estimate s =
      let sample_factor = div (of_nat (min s.sample_count 20)) (literal 20 0) in
      let blend_weight = mul (mul s.hardware_similarity sample_factor) (literal 6 1) in
      round_f32 (
        add (mul estimate (sub (literal 1 0) blend_weight)) (mul s.tokens_per_sec_p50 blend_weight))

  -- The confidence after the estimate was blended.
  unfoldable pub boosted : fl.F64 → fl.F64 → CommunityBenchmarkSummary fl → fl.F64
  boosted confidence estimate s =
      let ratio =
        if less (literal 0 0) s.tokens_per_sec_p50
        then round_f32 (div estimate s.tokens_per_sec_p50)
        else literal 1 0 in
      let tenth = round_f32 (literal 1 1) in
      let more = round_f32 (mul tenth (round_f32 s.hardware_similarity)) in
      if less_eq (round_f32 (literal 7 1)) ratio && less_eq ratio (round_f32 (literal 13 1))
      then clamp fl tenth (round_f32 (literal 99 2)) (round_f32 (add confidence more))
      else confidence

  unfoldable pub blend :
      ModelRecommendation fl → Option (CommunityBenchmarkSummary fl) → ModelRecommendation fl
  unfolding blended boosted
  blend rec none = rec
  blend rec (some s) =
      let estimate = blended rec.estimated_tokens_per_sec s in
      record rec {
        community_tokens_per_sec = some s.tokens_per_sec_p50;
        community_sample_count = some s.sample_count;
        estimated_tokens_per_sec = estimate;
        confidence = boosted rec.confidence estimate s;
      }

  unfoldable pub merge_community_data :
      List (ModelRecommendation fl)
      → List (CommunityBenchmarkSummary fl)
      → List (ModelRecommendation fl)
  unfolding blend
  merge_community_data recs community =
      map (λ rec. blend rec (most_similar none (keep (matches rec) community))) recs

  -- A recommendation after the merge: either no summary matches and it is as before, or it carries the
  -- figures of a matching one; what it recommends and its score are as before in both cases.
  abbrev pub IsMerged :
      List (CommunityBenchmarkSummary fl) → ModelRecommendation fl → ModelRecommendation fl → Type 0
  IsMerged community before after =
      (after.model_id ≡ before.model_id)
      × (after.quantization ≡ before.quantization)
      × (after.score ≡ before.score)
      × (((keep (matches before) community ≡ []) × (after ≡ before))
          ⊎ ((s : CommunityBenchmarkSummary fl) × Memᴰ s community
              × (matches before s ≡ true)
              × (after.community_tokens_per_sec ≡ some s.tokens_per_sec_p50)
              × (after.community_sample_count ≡ some s.sample_count)))

  abbrev pub AreMerged :
      List (CommunityBenchmarkSummary fl)
      → List (ModelRecommendation fl)
      → List (ModelRecommendation fl)
      → Type 0
  AreMerged community [] [] = Unit
  AreMerged community [] (q ∷ qs) = ⊥
  AreMerged community (r ∷ rs) [] = ⊥
  AreMerged community (r ∷ rs) (q ∷ qs) = IsMerged community r q × AreMerged community rs qs

  more_similar-Memᴰ :
      (best s : CommunityBenchmarkSummary fl) (ss : List (CommunityBenchmarkSummary fl))
      → Memᴰ (more_similar (some best) s) (best ∷ s ∷ ss)
  unfolding more_similar
  more_similar-Memᴰ best s ss =
      elim (Bool-cases (less s.hardware_similarity best.hardware_similarity)) [
        | inl e ↦ rw e (Memᴰ.head refl)
        | inr e ↦ rw e (Memᴰ.tail (Memᴰ.head refl))
      ]

  most_similar-some :
      (best : CommunityBenchmarkSummary fl) (ss : List (CommunityBenchmarkSummary fl))
      → (t : CommunityBenchmarkSummary fl) × (most_similar (some best) ss ≡ some t)
        × Memᴰ t (best ∷ ss)
  unfolding most_similar
  most_similar-some best [] = (best, refl, Memᴰ.head refl)
  most_similar-some best (s ∷ ss) = go (most_similar-some (more_similar (some best) s) ss)
    where
      go :
          ((t : CommunityBenchmarkSummary fl) × (most_similar (some (more_similar (some best) s)) ss
              ≡ some t)
            × Memᴰ t (more_similar (some best) s ∷ ss))
          → (t : CommunityBenchmarkSummary fl) × (most_similar
                (some (more_similar (some best) s))
                ss
              ≡ some t)
            × Memᴰ t (best ∷ s ∷ ss)
      go (t, e, Memᴰ.head f) = (t, e, Memᴰ.cast f (more_similar-Memᴰ best s ss))
      go (t, e, Memᴰ.tail m) = (t, e, Memᴰ.tail (Memᴰ.tail m))

  keep-Memᴰ :
      (p : CommunityBenchmarkSummary fl → Bool) (t : CommunityBenchmarkSummary fl)
      (ss : List (CommunityBenchmarkSummary fl))
      → Memᴰ t (keep p ss)
      → Memᴰ t ss × (p t ≡ true)
  keep-Memᴰ p t [] m = absurd (Memᴰ.not-nil m)
  keep-Memᴰ p t (s ∷ ss) m = elim (Bool-cases (p s)) [
    | inl e ↦ at_head e (λ n. keep-Memᴰ p t ss n) (rw e at m)
    | inr e ↦ let rest = keep-Memᴰ p t ss (rw e at m) in (Memᴰ.tail rest.0, rest.1)
  ]
    where
      at_head :
          p s ≡ true
          → (Memᴰ t (keep p ss) → Memᴰ t ss × (p t ≡ true))
          → Memᴰ t (s ∷ keep p ss)
          → Memᴰ t (s ∷ ss) × (p t ≡ true)
      at_head e later (Memᴰ.head f) = (Memᴰ.head f, ap p f ∙ e)
      at_head e later (Memᴰ.tail n) = (Memᴰ.tail (later n).0, (later n).1)

  blend-IsMerged :
      (community : List (CommunityBenchmarkSummary fl)) (r : ModelRecommendation fl)
      (found : List (CommunityBenchmarkSummary fl))
      → keep (matches r) community ≡ found
      → IsMerged community r (blend r (most_similar none found))
  unfolding blend most_similar more_similar
  blend-IsMerged community r [] e = (refl, refl, refl, inl (e, refl))
  blend-IsMerged community r (s ∷ ss) e = go (most_similar-some s ss)
    where
      go :
          ((t : CommunityBenchmarkSummary fl) × (most_similar (some s) ss ≡ some t)
            × Memᴰ t (s ∷ ss))
          → IsMerged community r (blend r (most_similar (some s) ss))
      go (t, f, m) =
          let inside = keep-Memᴰ (matches r) t community (subst (Memᴰ t) (sym e) m) in
          rw f (refl, refl, refl, inr (t, inside.0, inside.1, refl, refl))

  -- After the merge the recommendations stand in the same order with the same scores. One that no
  -- summary matches is unchanged; every other carries the speed and the number of samples of a summary
  -- of its model and quantization.
  pub merge_community_data-AreMerged :
      (recs : List (ModelRecommendation fl)) (community : List (CommunityBenchmarkSummary fl))
      → AreMerged community recs (merge_community_data recs community)
  unfolding merge_community_data
  merge_community_data-AreMerged [] community = tt
  merge_community_data-AreMerged (r ∷ recs) community = (
    blend-IsMerged community r (keep (matches r) community) refl,
    merge_community_data-AreMerged recs community,
  )
