-- ===== src/Coordinator/Karma/Claims.antt =====
-- What a karma claim does on each of its paths.
use hive_bear.Prelude.{
  ℕ, ◌+◌, ◌%◌, ◌^◌, ◌≤◌, ◌<◌, ◌≡◌, ◌↔◌, ◌⊎◌, refl, true, Option, none, some, arith,
}
use mathlib.Core.Logic.{ite}
use hive_bear.Prelude.Map.{lookup, lookup-insert, lookup-insert_self}
use hive_bear.Prelude.Text.{Text, text_dec}
use hive_bear.Float.{Float}
use hive_bear.Coordinator.{State, StatusCode, or_default}
use hive_bear.Coordinator.Karma.{
  WorkReceipt, ClaimResult, awarded, refused, receipt_key, karma_of, is_some, claim_checks,
  claim_award, claim_karma,
}

or_default-ite {ℓ} :
    {A P : Type ℓ} (d : Dec P) (x a : A) (o : Option A)
    → or_default x (ite d (some a) o) ≡ ite d a (or_default x o)
or_default-ite (yes p) x a o = refl
or_default-ite (no p) x a o = refl

module _ {fl : Float} (now : ℕ) (r : WorkReceipt) (s : State fl) where
  -- The three conditions under which the server accepts a receipt.
  pub record Acceptable : Type 0 where
    pub fresh : lookup text_dec (receipt_key r) s.processed_receipts ≡ none
    pub known :
        (is_some (lookup text_dec r.client_node_id s.nodes) ≡ true) ⊎ (r.tokens_processed ≤ 5000)
    pub some_tokens : 0 < r.tokens_processed
    pub capped : r.tokens_processed ≤ 100000

  checks_pass : Acceptable → claim_checks r s ≡ none
  unfolding claim_checks
  checks_pass h = ground arith

  checks_sound : claim_checks r s ≡ none → Acceptable
  unfolding claim_checks
  checks_sound h = record {
    fresh = ground arith;
    known = ground arith;
    some_tokens = ground arith;
    capped = ground arith;
  }

  claim_award_lem :
      (id : Text)
      → karma_of r.worker_node_id s + r.tokens_processed < 2 ^ 63
      → let balance = karma_of r.worker_node_id s + r.tokens_processed in
        let after = (claim_award now r s).0 in
        ((claim_award now r s).1 ≡ awarded r.worker_node_id r.tokens_processed balance)
        × (karma_of id after ≡ ite (text_dec r.worker_node_id id) balance (karma_of id s))
        × (lookup text_dec (receipt_key r) after.processed_receipts ≡ some now)
        × (after.nodes ≡ s.nodes)
        × (after.signals ≡ s.signals)
  unfolding claim_award
  claim_award_lem id small =
      let balance = karma_of r.worker_node_id s + r.tokens_processed in
      let fits : balance % 2 ^ 64 ≡ balance = omega arith in
      rw (fits, lookup-insert_self, lookup-insert)
        (refl, or_default-ite (text_dec r.worker_node_id id) 0 balance _, refl, refl, refl)

  -- An acceptable receipt, whose award does not overflow the worker's balance, is awarded: the worker's
  -- balance grows by the tokens, every other balance, the nodes and the signals stay, and the receipt
  -- is recorded.
  pub claim_karma_awarded :
      (id : Text)
      → Acceptable
      → karma_of r.worker_node_id s + r.tokens_processed < 2 ^ 63
      → let balance = karma_of r.worker_node_id s + r.tokens_processed in
        let after = (claim_karma now r s).0 in
        ((claim_karma now r s).1 ≡ awarded r.worker_node_id r.tokens_processed balance)
        × (karma_of id after ≡ ite (text_dec r.worker_node_id id) balance (karma_of id s))
        × (lookup text_dec (receipt_key r) after.processed_receipts ≡ some now)
        × (after.nodes ≡ s.nodes)
        × (after.signals ≡ s.signals)
  unfolding claim_karma
  claim_karma_awarded id h small = rw (checks_pass h, claim_karma) (claim_award_lem id small)

  refused_cases :
      (o : Option StatusCode) (status : StatusCode)
      → (elim o as (λ _. State fl × ClaimResult) [
        | some c ↦ (s, refused c)
        | none ↦ claim_award now r s
      ]).1
        ≡ refused status
      → o ≡ some status
  unfolding claim_award
  refused_cases none status h = cc
  refused_cases (some c) status h = cc

  conflict_cases :
      (status : StatusCode)
      → claim_checks r s ≡ some status
      → (status ≡ StatusCode.conflict)
        ↔ (is_some (lookup text_dec (receipt_key r) s.processed_receipts) ≡ true)
  unfolding claim_checks
  conflict_cases status h = (λ e. ground arith, λ e. ground arith)

  -- A refused claim changes nothing, and is refused for a receipt that is not acceptable: as a conflict
  -- exactly if its key was processed before.
  pub claim_karma_refused :
      (status : StatusCode)
      → (claim_karma now r s).1 ≡ refused status
      → ((claim_karma now r s).0 ≡ s)
        × (¬ Acceptable)
        × ((status ≡ StatusCode.conflict)
            ↔ (is_some (lookup text_dec (receipt_key r) s.processed_receipts) ≡ true))
  unfolding claim_karma
  claim_karma_refused status h =
      let e = refused_cases (claim_checks r s) status h in
      (rw (e, claim_karma), λ ok. cc (checks_pass ok), conflict_cases status e)
