-- ===== src/Coordinator/Karma/Ranking.antt =====
-- The ranking and the tiers that matchmaking answers with. What they are measured by is written out here:
-- the entries of the karma map, the order of `i64`, and the bounds of the tiers.
use hive_bear.Prelude.{
  ℕ, ◌^◌, ◌≤◌, ◌<◌, ◌≡◌, ◌⊎◌, inl, inr, refl, true, false, Option, none, some, List, [], ◌∷◌, map,
  arith, length, All, Option-cases, Bool-cases, ltb, leb, ◌&&◌, dec_le, dec_lt,
}
use mathlib.Core.List.{Perm}
use hive_bear.Prelude.Map.{lookup}
use hive_bear.Prelude.Sort.{IsSorted, sort_by, sort_by-perm, sort_by-IsSorted, All-sort_by}
use hive_bear.Prelude.Text.{Text, text_dec}
use hive_bear.Float.{Float}
use hive_bear.Peer.{NodeId}
use hive_bear.Coordinator.{State, NodeEntry}
use hive_bear.Coordinator.Karma.{
  Tier, RankedPeer, karma_of, ranks_before, tier_of, peer_row, matchmake, get_karma_balance,
}

-- The entry of the map, and 0 where there is none.
abbrev pub entry_or_zero : Option ℕ → ℕ
entry_or_zero none = 0
entry_or_zero (some k) = k

abbrev pub balance_in : {fl : Float} → State fl → Text → ℕ
balance_in s id = entry_or_zero (lookup text_dec id s.karma)

karma_of-balance_in : {fl : Float} (id : Text) (s : State fl) → karma_of id s ≡ balance_in s id
unfolding karma_of
karma_of-balance_in id s = elim (Option-cases (lookup text_dec id s.karma)) [
  | inl e ↦ rw e refl
  | inr e ↦ rw e.1 refl
]

-- The order of two's complement numbers of 64 bits: a negative one is at least 2 ^ 63.
abbrev pub SignedLe : ℕ → ℕ → Type 0
SignedLe a b = ((2 ^ 63 ≤ a) × (b < 2 ^ 63)) ⊎ ((a ≤ b) × ((b < 2 ^ 63) ⊎ (2 ^ 63 ≤ a)))

-- No one has less karma than a peer that follows.
abbrev pub IsDescending : List RankedPeer → Type 0
IsDescending [] = Unit
IsDescending (x ∷ xs) = All (λ y. SignedLe y.karma x.karma) xs × IsDescending xs

abbrev pub IsTier : ℕ → Tier → Type 0
IsTier balance Tier.vip_alpha = (500 ≤ balance) × (balance < 2 ^ 63)
IsTier balance Tier.contributor = (1 ≤ balance) × (balance < 500)
IsTier balance Tier.community = (balance ≡ 0) ⊎ (2 ^ 63 ≤ balance)

tier_of-IsTier : (balance : ℕ) → IsTier balance (tier_of balance)
unfolding tier_of
tier_of-IsTier balance = elim (Bool-cases (leb 500 balance && ltb balance (2 ^ 63))) [
  | inl vip ↦ rw vip (ground (arith, vip), ground (arith, vip))
  | inr low ↦ elim (Bool-cases (ltb 0 balance && ltb balance (2 ^ 63))) [
    | inl some_karma ↦
        rw (low, some_karma) (ground (arith, some_karma), ground (arith, low, some_karma))
    | inr e ↦ elim (dec_le (2 ^ 63) balance) [
      | yes negative ↦ rw (low, e) (inr negative)
      | no n ↦ rw (low, e) (inl (ground (arith, e, n)))
    ]
  ]
]

ranks_before_total : (a b : RankedPeer) → ranks_before a b ≡ false → ranks_before b a ≡ true
unfolding ranks_before
ranks_before_total a b h = ground arith

ranks_before_trans :
    (a b c : RankedPeer)
    → ranks_before a b ≡ true
    → ranks_before b c ≡ true
    → ranks_before a c ≡ true
unfolding ranks_before
ranks_before_trans a b c h k = ground arith

ranks_before-SignedLe :
    (a b : RankedPeer)
    → a.karma < 2 ^ 64
    → b.karma < 2 ^ 64
    → ranks_before a b ≡ true
    → SignedLe b.karma a.karma
unfolding ranks_before
ranks_before-SignedLe a b small small_b h = elim (dec_le (2 ^ 63) b.karma) [
  | yes negative ↦ elim (dec_lt a.karma (2 ^ 63)) [
    | yes positive ↦ inl (negative, positive)
    | no n ↦ inr (ground (arith, h, negative, n, small, small_b), inr negative)
  ]
  | no n ↦ inr (ground (arith, h, n, small, small_b), inl (ground (arith, h, n, small, small_b)))
]

All-SignedLe :
    (a : RankedPeer) (bs : List RankedPeer)
    → a.karma < 2 ^ 64
    → All (λ b. b.karma < 2 ^ 64) bs
    → All (λ b. ranks_before a b ≡ true) bs
    → All (λ b. SignedLe b.karma a.karma) bs
All-SignedLe a [] small p q = tt
All-SignedLe a (b ∷ bs) small p q =
    (ranks_before-SignedLe a b small p.0 q.0, All-SignedLe a bs small p.1 q.1)

IsSorted-IsDescending :
    (rows : List RankedPeer)
    → All (λ a. a.karma < 2 ^ 64) rows
    → IsSorted ranks_before rows
    → IsDescending rows
IsSorted-IsDescending [] p s = tt
IsSorted-IsDescending (a ∷ rows) p s =
    (All-SignedLe a rows p.0 p.1 s.0, IsSorted-IsDescending rows p.1 s.1)

module _ {fl : Float} (to_hex : NodeId → Text) where
  -- The row of a registered node.
  abbrev pub listed_as : State fl → Text × NodeEntry fl → RankedPeer
  listed_as s (key, e) = record {
    node_id = to_hex e.info.node_id;
    addr = e.info.addr;
    karma = balance_in s (to_hex e.info.node_id);
  }

  rows-listed_as :
      (s : State fl) (nodes : List (Text × NodeEntry fl))
      → map (peer_row to_hex s) nodes ≡ map (listed_as s) nodes
  unfolding peer_row
  rows-listed_as s [] = refl
  rows-listed_as s ((key, e) ∷ nodes) =
      rw (karma_of-balance_in (to_hex e.info.node_id) s, rows-listed_as s nodes) refl

  rows-small :
      (s : State fl) (nodes : List (Text × NodeEntry fl))
      → ((id : Text) → balance_in s id < 2 ^ 64)
      → All (λ a. a.karma < 2 ^ 64) (map (listed_as s) nodes)
  rows-small s [] small = tt
  rows-small s ((key, e) ∷ nodes) small = (small (to_hex e.info.node_id), rows-small s nodes small)

  -- If the balances are numbers of 64 bits, matchmaking lists every registered node once, with its
  -- address and its entry in the karma map (0 without one), those with more karma first in the order of
  -- `i64`. It counts the nodes, and it gives the requester's balance and tier as the balance request does:
  -- VIP from 500 karma on, contributor from 1 on, and community for none or a negative balance.
  pub matchmake_ranks :
      (id : Text) (s : State fl)
      → ((k : Text) → balance_in s k < 2 ^ 64)
      → let m = matchmake to_hex id s in
        Perm m.ranked_peers (map (listed_as s) s.nodes)
        × IsDescending m.ranked_peers
        × (m.total_peers_in_swarm ≡ length s.nodes)
        × (m.requester_karma ≡ balance_in s id)
        × IsTier m.requester_karma m.priority_tier
        × (get_karma_balance id s ≡ (m.requester_karma, m.priority_tier))
  unfolding matchmake get_karma_balance
  matchmake_ranks id s small = rw (rows-listed_as s s.nodes) (
    sort_by-perm ranks_before _,
    IsSorted-IsDescending (sort_by ranks_before (map (listed_as s) s.nodes))
        (All-sort_by _ ranks_before _ (rows-small s s.nodes small))
        (sort_by-IsSorted ranks_before ranks_before_total ranks_before_trans _),
    refl,
    karma_of-balance_in id s,
    tier_of-IsTier (karma_of id s),
    refl,
  )

abbrev tier_rank : Tier → ℕ
tier_rank Tier.community = 0
tier_rank Tier.contributor = 1
tier_rank Tier.vip_alpha = 2

-- More karma never gives a lower tier, below 2 ^ 63.
tier_of_mono : (a b : ℕ) → a ≤ b → b < 2 ^ 63 → tier_rank (tier_of a) ≤ tier_rank (tier_of b)
unfolding tier_of
tier_of_mono a b h lt = ground arith
