-- ===== src/Coordinator/Karma.antt =====
-- Karma at the coordination server: claims, balances, tiers and the ranking of peers,
-- crates/hivebear-coordinator/src/main.rs.
pub mod Claims
pub mod Ranking
pub mod Race
use hive_bear.Prelude.{
  ℕ, zero, suc, ◌+◌, ◌/◌, ◌%◌, ◌^◌, Bool, true, false, not, ◌&&◌, ◌||◌, Option, none, some, List,
  [], ◌∷◌, ◌++◌, map, length, ltb, leb, ◌==◌, if◌then◌else◌,
}
use hive_bear.Prelude.Map.{lookup, insert}
use hive_bear.Prelude.Sort.{sort_by}
use hive_bear.Prelude.Text.{Text, text_dec, codes}
use hive_bear.Float.{Float}
use hive_bear.Peer.{NodeId, PeerInfo}
use hive_bear.Coordinator.{State, StatusCode, NodeEntry, or_default}

pub record WorkReceipt : Type 0 where
  pub client_node_id : Text
  pub worker_node_id : Text
  pub tokens_processed : ℕ
  pub timestamp : ℕ
  pub nonce : Text
  pub signature_hash : Text

-- The decimal digits of a `u64`: at most 20.
unfoldable pub digits : ℕ → ℕ → Text → Text
digits zero n rest = rest
digits (suc fuel) n rest =
    let more = digits fuel (n / 10) ((n % 10 + b'0') ∷ rest) in
    if ltb n 10 then (n + b'0') ∷ rest else more

unfoldable pub decimal : ℕ → Text
unfolding digits
decimal n = digits 20 n []

-- `format!("{}:{}:{}", client_node_id, nonce, timestamp)`.
unfoldable pub receipt_key : WorkReceipt → Text
unfolding decimal
receipt_key r = r.client_node_id ++ b':' ∷ (r.nonce ++ b':' ∷ decimal r.timestamp)

-- A balance, and 0 for an unknown node.
unfoldable pub karma_of : {fl : Float} → Text → State fl → ℕ
karma_of id s = or_default 0 (lookup text_dec id s.karma)

pub data ClaimResult : Type 0 where
  awarded : (worker_node_id : Text) (karma_awarded new_balance : ℕ) → ClaimResult
  refused : StatusCode → ClaimResult

abbrev pub is_some {ℓ} : {A : Type ℓ} → Option A → Bool
is_some none = false
is_some (some a) = true

-- The three checks of `claim_karma`, in their order.
unfoldable pub claim_checks : {fl : Float} → WorkReceipt → State fl → Option StatusCode
unfolding receipt_key
claim_checks r s =
    if is_some (lookup text_dec (receipt_key r) s.processed_receipts)
    then some StatusCode.conflict
    else if not (is_some (lookup text_dec r.client_node_id s.nodes)) && ltb 5000 r.tokens_processed
    then some StatusCode.forbidden
    else if r.tokens_processed == 0 || ltb 100000 r.tokens_processed
    then some StatusCode.bad_request
    else none

-- `*current += points` on the worker's entry, on `i64`.
unfoldable pub credit_worker : {fl : Float} → WorkReceipt → State fl → State fl
unfolding karma_of
credit_worker r s = record s {
  karma =
      insert text_dec r.worker_node_id ((karma_of r.worker_node_id s + r.tokens_processed) % 2 ^ 64)
        s.karma;
}

unfoldable pub record_receipt : {fl : Float} → ℕ → WorkReceipt → State fl → State fl
unfolding receipt_key
record_receipt now r s = record s {
  processed_receipts = insert text_dec (receipt_key r) now s.processed_receipts;
}

-- The award: the balance grows, then the receipt is recorded.
unfoldable pub claim_award : {fl : Float} → ℕ → WorkReceipt → State fl → State fl × ClaimResult
unfolding credit_worker record_receipt karma_of receipt_key
claim_award now r s = (
  record_receipt now r (credit_worker r s),
  awarded r.worker_node_id r.tokens_processed
      ((karma_of r.worker_node_id s + r.tokens_processed) % 2 ^ 64),
)

unfoldable pub claim_karma : {fl : Float} → ℕ → WorkReceipt → State fl → State fl × ClaimResult
claim_karma now r s = elim (claim_checks r s) [
  | some status ↦ (s, refused status)
  | none ↦ claim_award now r s
]

pub data Tier : Type 0 where
  vip_alpha contributor community : Tier

-- `balance >= 500`, `balance > 0` on a signed 64-bit number.
unfoldable pub tier_of : ℕ → Tier
tier_of balance =
    if leb 500 balance && ltb balance (2 ^ 63)
    then Tier.vip_alpha
    else if ltb 0 balance && ltb balance (2 ^ 63)
    then Tier.contributor
    else Tier.community

unfoldable pub get_karma_balance : {fl : Float} → Text → State fl → ℕ × Tier
unfolding karma_of tier_of
get_karma_balance id s = let balance = karma_of id s in (balance, tier_of balance)

pub record RankedPeer : Type 0 where
  pub node_id : Text
  pub addr : Text
  pub karma : ℕ

-- `sort_by_key(Reverse(karma))`: signed numbers are compared with the sign bit flipped.
unfoldable pub ranks_before : RankedPeer → RankedPeer → Bool
ranks_before a b = leb ((b.karma + 2 ^ 63) % 2 ^ 64) ((a.karma + 2 ^ 63) % 2 ^ 64)

pub record Matchmake : Type 0 where
  pub total_peers_in_swarm : ℕ
  pub requester_karma : ℕ
  pub priority_tier : Tier
  pub ranked_peers : List RankedPeer

module _ {fl : Float} (to_hex : NodeId → Text) where
  unfoldable pub peer_row : State fl → Text × NodeEntry fl → RankedPeer
  unfolding karma_of
  peer_row s (key, e) =
      let id = to_hex e.info.node_id in
      record { node_id = id; addr = e.info.addr; karma = karma_of id s }

  unfoldable pub matchmake : Text → State fl → Matchmake
  unfolding karma_of tier_of peer_row ranks_before
  matchmake node_id s =
      let requester_karma = karma_of node_id s in
      record {
        total_peers_in_swarm = length s.nodes;
        requester_karma = requester_karma;
        priority_tier = tier_of requester_karma;
        ranked_peers = sort_by ranks_before (map (peer_row s) s.nodes);
      }
