-- ===== src/Trust.antt =====
-- The reputation of peers: crates/hivebear-mesh/src/trust/reputation.rs. The file that keeps the records
-- is not modelled. `exp`, the negation and the constant `LN_2` of `f64` are parameters; the two readings
-- of the clock of one call are `now` and `later`, in seconds.
pub mod Decay
pub mod Verification
mod Tests
use hive_bear.Prelude.{
  ℕ, ◌+◌, ◌-◌, ◌*◌, ◌%◌, ◌^◌, Bool, true, false, Option, none, some, List, [], ltb, if◌then◌else◌,
  ℕ_discrete,
}
use hive_bear.Prelude.Map.{lookup, insert}
use hive_bear.Float.{Float, min_f64, clamp}
use hive_bear.Peer.{NodeId}

pub record ReputationRecord (fl : Float) : Type 0 where
  pub score : fl.F64
  pub verifications_passed : ℕ
  pub verifications_failed : ℕ
  pub uptime_seconds : ℕ
  pub avg_latency_variance_ms : fl.F64
  pub last_seen : ℕ

unfoldable pub default_record : (fl : Float) → ReputationRecord fl
default_record fl = record {
  score = fl.literal 5 1;
  verifications_passed = 0;
  verifications_failed = 0;
  uptime_seconds = 0;
  avg_latency_variance_ms = fl.literal 0 0;
  last_seen = 0;
}

-- `entry(key).or_default()`.
abbrev pub or_default : (fl : Float) → Option (ReputationRecord fl) → ReputationRecord fl
or_default fl none = default_record fl
or_default fl (some r) = r

unfoldable pub score_or_neutral : (fl : Float) → Option (ReputationRecord fl) → fl.F64
score_or_neutral fl none = fl.literal 5 1
score_or_neutral fl (some r) = r.score

unfoldable pub score_of : {fl : Float} → NodeId → List (NodeId × ReputationRecord fl) → fl.F64
unfolding score_or_neutral
score_of {fl} id scores = score_or_neutral fl (lookup ℕ_discrete id scores)

unfoldable is_banned : {fl : Float} → NodeId → List (NodeId × ReputationRecord fl) → Bool
unfolding score_of
is_banned {fl} id scores = fl.less (score_of id scores) (fl.literal 2 1)

-- The share of the verifications that passed; the sum is on `u64`.
unfoldable verification_rate : (fl : Float) → ReputationRecord fl → fl.F64
verification_rate fl r =
    let total = (r.verifications_passed + r.verifications_failed) % 2 ^ 64 in
    if ltb 0 total
    then fl.div (fl.of_nat r.verifications_passed) (fl.of_nat total)
    else fl.literal 5 1

unfoldable base_score : (fl : Float) → ReputationRecord fl → fl.F64
unfolding verification_rate
base_score fl r =
    let uptime_bonus =
      fl.mul
        (min_f64 fl (fl.div (fl.of_nat r.uptime_seconds) (fl.literal 86400 0)) (fl.literal 1 0))
        (fl.literal 1 1) in
    fl.add (fl.add (fl.mul (verification_rate fl r) (fl.literal 8 1)) uptime_bonus) (fl.literal 1 1)

-- The counters that a verification result and a time of service change.
unfoldable pub count_verification : {fl : Float} → Bool → ReputationRecord fl → ReputationRecord fl
count_verification true r = record r {
  verifications_passed = (r.verifications_passed + 1) % 2 ^ 64;
}
count_verification false r = record r {
  verifications_failed = (r.verifications_failed + 1) % 2 ^ 64;
}

unfoldable count_uptime : {fl : Float} → ℕ → ReputationRecord fl → ReputationRecord fl
count_uptime seconds r = record r { uptime_seconds = (r.uptime_seconds + seconds) % 2 ^ 64 }

module _ {fl : Float} (exp negate : fl.F64 → fl.F64) (ln2 : fl.F64) where
  -- `recalculate_score` on a record that is there; the week of the half-life is in seconds.
  unfoldable pub recalculate_score : ℕ → ReputationRecord fl → ReputationRecord fl
  unfolding base_score
  recalculate_score now r =
      let age = fl.of_nat (now - r.last_seen) in
      let half_life = fl.mul (fl.mul (fl.literal 7 0) (fl.literal 24 0)) (fl.literal 3600 0) in
      let decay = exp (fl.mul (fl.div (negate age) half_life) ln2) in
      let mixed =
        fl.add (fl.mul (base_score fl r) decay)
          (fl.mul (fl.literal 5 1) (fl.sub (fl.literal 1 0) decay)) in
      record r { score = clamp fl (fl.literal 0 0) (fl.literal 1 0) mixed }

  -- The record after a change of its counters: seen now, and its score computed anew.
  unfoldable pub touched :
      ℕ
      → ℕ
      → (ReputationRecord fl → ReputationRecord fl)
      → ReputationRecord fl
      → ReputationRecord fl
  unfolding recalculate_score
  touched now later f r = recalculate_score later (record (f r) { last_seen = now })

  unfoldable pub record_verification :
      ℕ
      → ℕ
      → NodeId
      → Bool
      → List (NodeId × ReputationRecord fl)
      → List (NodeId × ReputationRecord fl)
  unfolding touched count_verification
  record_verification now later id passed scores =
      insert ℕ_discrete id
        (touched now later (count_verification passed)
          (or_default fl (lookup ℕ_discrete id scores)))
        scores

  unfoldable record_uptime :
      ℕ → ℕ → NodeId → ℕ → List (NodeId × ReputationRecord fl) → List (NodeId × ReputationRecord fl)
  unfolding touched count_uptime
  record_uptime now later id seconds scores =
      insert ℕ_discrete id
        (touched now later (count_uptime seconds) (or_default fl (lookup ℕ_discrete id scores)))
        scores
