-- ===== src/Coordinator/Tests.antt =====
-- The theorems on the coordination server at concrete histories.
use mathlib.Core.Logic.{ite}
use mathlib.Core.List.{Perm}
use hive_bear.Prelude.{
  ℕ, ◌+◌, ◌-◌, ◌*◌, ◌^◌, ◌<◌, ◌≡◌, ◌↔◌, refl, true, some, [], ◌∷◌, ◌++◌, arith, inr, map, take,
  length, ℕ_discrete,
}
use hive_bear.Prelude.Map.{lookup}
use hive_bear.Prelude.Text.{Text, text_dec, codes}
use hive_bear.Float.{fixed_point}
use hive_bear.Peer.{NodeId}
use hive_bear.Samples.{peer}
use hive_bear.Coordinator.{State, StatusCode, SignalMessage, start, heartbeat_node, poll_signals}
use hive_bear.Coordinator.Karma.{
  WorkReceipt, awarded, refused, receipt_key, digits, decimal, karma_of, is_some, claim_checks,
  claim_award, claim_karma, matchmake, get_karma_balance,
}
use hive_bear.Coordinator.Karma.Claims.{Acceptable, claim_karma_awarded, claim_karma_refused}
use hive_bear.Coordinator.Karma.Ranking.{
  balance_in, listed_as, IsDescending, IsTier, matchmake_ranks,
}
use hive_bear.Coordinator.Karma.Race.{Calls, Interleaving, finished, both_started, double_award}
use hive_bear.Coordinator.Run.{signal, pruning, run}
use hive_bear.Coordinator.Run.Replay.{replay_refused}
use hive_bear.Coordinator.Run.Signals.{inbox, IsBounded, run-start-IsBounded}
use hive_bear.Coordinator.Run.Delivery.{addressed, send_all, poll_signals-send_all}
use hive_bear.Coordinator.Run.Presence.{IsListed, heartbeat-Keeps-IsListed}

-- A name for a key: its number as one character.
abbrev to_hex : NodeId → Text
to_hex id = id ∷ []

abbrev receipt : WorkReceipt
receipt = record {
  client_node_id = codes "c";
  worker_node_id = codes "w";
  tokens_processed = 120;
  timestamp = 17;
  nonce = codes "n1";
  signature_hash = [];
}

abbrev message : ℕ → SignalMessage
message n = record {
  from_node = codes "a";
  to_node = codes "b";
  signal_type = codes "offer";
  payload = n ∷ [];
}

abbrev listed : State fixed_point
listed = record start {
  nodes = (1 ∷ [], record { info = peer 1 1000; last_seen = 5 * 10 ^ 9 }) ∷ [];
}

-- The key of the receipt is `c:n1:17`.
key_run : receipt_key receipt ≡ codes "c:n1:17"
unfolding receipt_key decimal digits
key_run = refl

replay_refused_example :
    let between =
      run to_hex ((2, signal (message 1)) ∷ (3, pruning) ∷ []) (claim_karma 1 receipt listed).0 in
    claim_karma 9 (record receipt { tokens_processed = 7 }) between
    ≡ (between, refused StatusCode.conflict)
replay_refused_example =
    replay_refused to_hex 1 9 receipt (record receipt { tokens_processed = 7 }) listed (codes "w")
      120 120 ((2, signal (message 1)) ∷ (3, pruning) ∷ [])
      (unfold claim_karma claim_checks claim_award karma_of receipt_key decimal digits lookup
          text_dec ℕ_discrete in
        refl)
      (unfold receipt_key in refl)

acceptable : Acceptable 1 receipt listed
acceptable = record {
  fresh = unfold lookup in refl;
  known = inr (omega arith);
  some_tokens = omega arith;
  capped = omega arith;
}

no_karma : karma_of (codes "w") listed ≡ 0
unfolding karma_of lookup
no_karma = refl

claim_karma_awarded_example :
    let balance = karma_of (codes "w") listed + 120 in
    let after = (claim_karma 1 receipt listed).0 in
    ((claim_karma 1 receipt listed).1 ≡ awarded (codes "w") 120 balance)
    × (karma_of (codes "c") after
        ≡ ite (text_dec (codes "w") (codes "c")) balance (karma_of (codes "c") listed))
    × (lookup text_dec (receipt_key receipt) after.processed_receipts ≡ some 1)
    × (after.nodes ≡ listed.nodes)
    × (after.signals ≡ listed.signals)
claim_karma_awarded_example =
    claim_karma_awarded 1 receipt listed (codes "c") acceptable (omega (arith, no_karma))

abbrev large : WorkReceipt
large = record receipt { tokens_processed = 6000 }

claim_karma_refused_example :
    ((claim_karma 1 large listed).0 ≡ listed)
    × (¬ Acceptable 1 large listed)
    × ((StatusCode.forbidden ≡ StatusCode.conflict)
        ↔ (is_some (lookup text_dec (receipt_key large) listed.processed_receipts) ≡ true))
claim_karma_refused_example = claim_karma_refused 1 large listed StatusCode.forbidden (
    unfold claim_karma claim_checks claim_award receipt_key decimal digits lookup text_dec
      ℕ_discrete in
    refl)

double_award_example :
    (c : Calls fixed_point) × Interleaving 1 receipt (both_started listed) c
    × (c.first ≡ finished)
    × (c.second ≡ finished)
    × (karma_of (codes "w") c.shared ≡ karma_of (codes "w") listed + 120 + 120)
double_award_example =
    double_award 1 receipt listed
      (unfold claim_checks receipt_key decimal digits lookup text_dec ℕ_discrete in refl)
      (omega (arith, no_karma))

run-start-IsBounded_example : IsBounded (codes "b") (
    inbox (codes "b") (
      run {fl = fixed_point} to_hex ((1, signal (message 1)) ∷ (2, signal (message 2)) ∷ []) start))
run-start-IsBounded_example =
    run-start-IsBounded to_hex ((1, signal (message 1)) ∷ (2, signal (message 2)) ∷ []) (codes "b")

poll_signals-send_all_example :
    (poll_signals (codes "b") (send_all (message 1 ∷ message 2 ∷ []) listed)).1
    ≡ inbox (codes "b") listed
      ++ take
          (50 - length (inbox (codes "b") listed))
          (addressed (codes "b") (message 1 ∷ message 2 ∷ []))
poll_signals-send_all_example =
    poll_signals-send_all (codes "b") (message 1 ∷ message 2 ∷ []) listed

heartbeat-Keeps-IsListed_example :
    IsListed
      (6 * 10 ^ 9)
      (1 ∷ [])
      (run to_hex
        ((50 * 10 ^ 9, pruning) ∷ [])
        (heartbeat_node to_hex (6 * 10 ^ 9) (peer 1 2000) listed).0).nodes
heartbeat-Keeps-IsListed_example =
    heartbeat-Keeps-IsListed to_hex (6 * 10 ^ 9) (peer 1 2000) ((50 * 10 ^ 9, pruning) ∷ []) listed
      (unfold lookup in refl, tt) ((omega arith, omega arith, λ e. cc), tt)

-- Two nodes; the second one has more karma.
abbrev ranked : State fixed_point
ranked = record start {
  nodes =
      (1 ∷ [], record { info = peer 1 1000; last_seen = 5 * 10 ^ 9 })
      ∷ (2 ∷ [], record { info = peer 2 1000; last_seen = 6 * 10 ^ 9 })
      ∷ [];
  karma = (1 ∷ [], 3) ∷ (2 ∷ [], 700) ∷ [];
}

small_balances : (k : Text) → balance_in ranked k < 2 ^ 64
unfolding lookup
small_balances k = ground arith

matchmake_ranks_example :
    let m = matchmake to_hex (2 ∷ []) ranked in
    Perm m.ranked_peers (map (listed_as to_hex ranked) ranked.nodes)
    × IsDescending m.ranked_peers
    × (m.total_peers_in_swarm ≡ 2)
    × (m.requester_karma ≡ balance_in ranked (2 ∷ []))
    × IsTier m.requester_karma m.priority_tier
    × (get_karma_balance (2 ∷ []) ranked ≡ (m.requester_karma, m.priority_tier))
matchmake_ranks_example = matchmake_ranks to_hex (2 ∷ []) ranked small_balances
