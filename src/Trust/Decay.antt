-- ===== src/Trust/Decay.antt =====
-- What the time decay of a reputation amounts to.
use hive_bear.Prelude.{ℕ, ◌+◌, ◌-◌, ◌≡◌, refl, Bool, true, false, some, List, arith, ℕ_discrete}
use hive_bear.Prelude.Map.{lookup, lookup-insert_self}
use hive_bear.Float.{Float}
use hive_bear.Peer.{NodeId}
use hive_bear.Trust.{
  ReputationRecord, score_or_neutral, score_of, count_verification, recalculate_score, touched,
  record_verification,
}

module _ {fl : Float} (exp negate : fl.F64 → fl.F64) (ln2 : fl.F64) where
  touched-same :
      (now now' pause t : ℕ) (x : fl.F64) (passed : Bool) (r : ReputationRecord fl)
      → (touched exp negate ln2 now (now + pause) (count_verification passed) r).score
        ≡ (touched exp negate ln2 now'
            (now' + pause)
            (count_verification passed)
            (record r { score = x; last_seen = t })).score
  unfolding touched recalculate_score count_verification
  touched-same now now' pause t x true r =
      let e : now + pause - now ≡ pause = omega arith in
      let f : now' + pause - now' ≡ pause = omega arith in rw (e, f) refl
  touched-same now now' pause t x false r =
      let e : now + pause - now ≡ pause = omega arith in
      let f : now' + pause - now' ≡ pause = omega arith in rw (e, f) refl

  -- The score after a verification does not depend on how long ago the peer was seen, nor on its score
  -- until then: two managers whose records of the peer differ in these only agree on it, whatever the
  -- time, if the call takes the same time.
  pub score_of-record_verification :
      (now now' pause t : ℕ) (x : fl.F64) (id : NodeId) (passed : Bool) (r : ReputationRecord fl)
      (scores scores' : List (NodeId × ReputationRecord fl))
      → lookup ℕ_discrete id scores ≡ some r
      → lookup ℕ_discrete id scores' ≡ some (record r { score = x; last_seen = t })
      → score_of id (record_verification exp negate ln2 now (now + pause) id passed scores)
        ≡ score_of id (record_verification exp negate ln2 now' (now' + pause) id passed scores')
  unfolding score_of record_verification score_or_neutral
  score_of-record_verification now now' pause t x id passed r scores scores' h h' =
      rw (lookup-insert_self, lookup-insert_self, h, h') (touched-same now now' pause t x passed r)
