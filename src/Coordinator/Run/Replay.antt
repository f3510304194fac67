-- ===== src/Coordinator/Run/Replay.antt =====
-- Claims over a history: a receipt is awarded at most once.
use hive_bear.Prelude.{ℕ, ◌≡◌, Bool, true, none, some, List, [], ◌∷◌, arith, Option-cases, inl, inr}
use hive_bear.Prelude.Map.{lookup, lookup-insert, lookup-insert_self}
use hive_bear.Prelude.Text.{Text, text_dec}
use hive_bear.Float.{Float}
use hive_bear.Peer.{NodeId}
use hive_bear.Coordinator.{
  State, StatusCode, prune, register_node, heartbeat_node, deregister_node, send_signal,
  poll_signals,
}
use hive_bear.Coordinator.Karma.{
  WorkReceipt, awarded, refused, receipt_key, is_some, claim_checks, claim_award, claim_karma,
}
use hive_bear.Coordinator.Run.{
  Request, register, heartbeat, deregister, signal, poll, claim, pruning, step, run,
}

-- The key stands among the processed receipts.
abbrev is_processed : {fl : Float} → Text → State fl → Bool
is_processed k s = is_some (lookup text_dec k s.processed_receipts)

module _ {fl : Float} where
  claim_award-processed :
      (now : ℕ) (r : WorkReceipt) (k : Text) (s : State fl)
      → is_processed k s ≡ true
      → is_processed k (claim_award now r s).0 ≡ true
  unfolding claim_award
  claim_award-processed now r k s h =
      ground (arith, lookup-insert text_dec (receipt_key r) k now s.processed_receipts)

  claim_karma-processed :
      (now : ℕ) (r : WorkReceipt) (k : Text) (s : State fl)
      → is_processed k s ≡ true
      → is_processed k (claim_karma now r s).0 ≡ true
  unfolding claim_karma
  claim_karma-processed now r k s h = elim (Option-cases (claim_checks r s)) [
    | inl e ↦ rw (e, claim_karma) (claim_award-processed now r k s h)
    | inr (c, e) ↦ rw (e, claim_karma) h
  ]

  awarded-processed :
      (now : ℕ) (r : WorkReceipt) (s : State fl) (w : Text) (k b : ℕ)
      → (claim_karma now r s).1 ≡ awarded w k b
      → is_processed (receipt_key r) (claim_karma now r s).0 ≡ true
  unfolding claim_karma
  awarded-processed now r s w k b h = elim (Option-cases (claim_checks r s)) [
    | inl e ↦
        rw (e, claim_karma)
          (unfold claim_award in
            rw (lookup-insert_self text_dec (receipt_key r) now s.processed_receipts))
    | inr (c, e) ↦ absurd (refused_not_awarded c (rw (e, claim_karma) at h))
  ]
    where
      refused_not_awarded : (c : StatusCode) → refused c ≡ awarded w k b → ⊥
      refused_not_awarded c e = cc

  processed_checks :
      (r : WorkReceipt) (s : State fl)
      → is_processed (receipt_key r) s ≡ true
      → claim_checks r s ≡ some StatusCode.conflict
  unfolding claim_checks
  processed_checks r s h = rw h

  processed_conflict :
      (now : ℕ) (r : WorkReceipt) (s : State fl)
      → is_processed (receipt_key r) s ≡ true
      → claim_karma now r s ≡ (s, refused StatusCode.conflict)
  unfolding claim_karma
  processed_conflict now r s h = rw (processed_checks r s h, claim_karma)

  module _ (to_hex : NodeId → Text) where
    step-processed :
        (now : ℕ) (q : Request fl) (k : Text) (s : State fl)
        → is_processed k s ≡ true
        → is_processed k (step to_hex now q s) ≡ true
    unfolding step register_node heartbeat_node deregister_node send_signal poll_signals prune
    step-processed now (register info) k s h = h
    step-processed now (heartbeat info) k s h = ground arith
    step-processed now (deregister none) k s h = h
    step-processed now (deregister (some id)) k s h = h
    step-processed now (signal m) k s h = ground arith
    step-processed now (poll id) k s h = ground arith
    step-processed now (claim r) k s h = claim_karma-processed now r k s h
    step-processed now pruning k s h = h

    run-processed :
        (rs : List (ℕ × Request fl)) (k : Text) (s : State fl)
        → is_processed k s ≡ true
        → is_processed k (run to_hex rs s) ≡ true
    unfolding run
    run-processed [] k s h = h
    run-processed ((now, q) ∷ rs) k s h =
        run-processed rs k (step to_hex now q s) (step-processed now q k s h)

    -- Once a receipt is awarded, a receipt with the same key is refused as a conflict, with no effect,
    -- after whatever requests and prune rounds come in between, one at a time.
    pub replay_refused :
        (now later : ℕ) (r r' : WorkReceipt) (s : State fl) (w : Text) (k b : ℕ)
        (rs : List (ℕ × Request fl))
        → (claim_karma now r s).1 ≡ awarded w k b
        → receipt_key r' ≡ receipt_key r
        → let between = run to_hex rs (claim_karma now r s).0 in
          claim_karma later r' between ≡ (between, refused StatusCode.conflict)
    replay_refused now later r r' s w k b rs h e =
        processed_conflict later r' (run to_hex rs (claim_karma now r s).0) (
          rw e (
            run-processed rs (receipt_key r) (claim_karma now r s).0
              (awarded-processed now r s w k b h)))
