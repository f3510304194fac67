-- ===== src/Trust/Tests.antt =====
-- The theorem on reputations at concrete records.
use hive_bear.Prelude.{◌+◌, ◌≡◌, refl, true, [], ◌∷◌, ℕ_discrete}
use hive_bear.Prelude.Map.{lookup}
use hive_bear.Float.{fixed_point}
use hive_bear.Trust.{ReputationRecord, score_of, record_verification}
use hive_bear.Trust.Decay.{score_of-record_verification}

abbrev known : ReputationRecord fixed_point
known = record {
  score = 300;
  verifications_passed = 1;
  verifications_failed = 3;
  uptime_seconds = 100;
  avg_latency_variance_ms = 0;
  last_seen = 7;
}

abbrev old : ReputationRecord fixed_point
old = record known { score = 900; last_seen = 1 }

score_of-record_verification_example :
    score_of 4 (
      record_verification {fl = fixed_point}
        (λ x. 1000)
        (λ x. x)
        693
        50
        (50 + 0)
        4
        true
        ((4, known) ∷ []))
    ≡ score_of 4 (
        record_verification {fl = fixed_point}
          (λ x. 1000)
          (λ x. x)
          693
          90
          (90 + 0)
          4
          true
          ((4, old) ∷ []))
score_of-record_verification_example =
    score_of-record_verification (λ x. 1000) (λ x. x) 693 50 90 0 1 900 4 true known
      ((4, known) ∷ []) ((4, old) ∷ []) (unfold lookup ℕ_discrete in refl)
      (unfold lookup ℕ_discrete in refl)
