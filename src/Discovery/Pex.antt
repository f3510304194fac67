-- ===== src/Discovery/Pex.antt =====
-- The peer exchange: crates/hivebear-mesh/src/discovery/pex.rs. The state is the cache of known peers.
use hive_bear.Prelude.{
  ℕ, ◌≤◌, ◌<◌, ◌≡◌, Option, none, some, List, [], ◌∷◌, arith, length, map, keep, take, leb,
  if◌then◌else◌, Bool-cases, Option-cases, inl, inr, ℕ_discrete,
}
use hive_bear.Prelude.Map.{
  lookup, insert, remove, lookup-insert_ne, length-insert-le, length-remove-le,
}
use hive_bear.Float.{Float}
use hive_bear.Peer.{NodeId, PeerInfo}

abbrev max_peers : ℕ
max_peers = 200

module _ {fl : Float} where
  unfoldable pub add_peer : PeerInfo fl → List (NodeId × PeerInfo fl) → List (NodeId × PeerInfo fl)
  add_peer peer known =
      if leb max_peers (length known) then known else insert ℕ_discrete peer.node_id peer known

  unfoldable pub remove_peer : NodeId → List (NodeId × PeerInfo fl) → List (NodeId × PeerInfo fl)
  remove_peer id known = remove ℕ_discrete id known

  unfoldable shareable_peers : List (NodeId × PeerInfo fl) → List (PeerInfo fl)
  shareable_peers known =
      keep (λ p. fl.less_eq (fl.literal 3 1) p.reputation_score) (map (λ e. e.1) known)

  unfoldable handle_exchange_request : ℕ → List (NodeId × PeerInfo fl) → List (PeerInfo fl)
  handle_exchange_request max known = take max (shareable_peers known)

  -- `entry(key).or_insert(peer)`.
  unfoldable pub or_insert :
      PeerInfo fl → List (NodeId × PeerInfo fl) → Option (PeerInfo fl) → List (NodeId × PeerInfo fl)
  or_insert peer known none = insert ℕ_discrete peer.node_id peer known
  or_insert peer known (some old) = known

  unfoldable pub merge_peers :
      List (PeerInfo fl) → List (NodeId × PeerInfo fl) → List (NodeId × PeerInfo fl)
  merge_peers [] known = known
  merge_peers (peer ∷ peers) known =
      let merged =
        merge_peers peers (or_insert peer known (lookup ℕ_discrete peer.node_id known)) in
      if leb max_peers (length known) then known else merged

  unfoldable find_peers : ℕ → List (NodeId × PeerInfo fl) → List (PeerInfo fl)
  find_peers min_memory_bytes known =
      keep (λ p. leb min_memory_bytes p.available_memory_bytes) (map (λ e. e.1) known)

-- What a node asks of its cache: `register`, `remove_peer`, `merge_peers` and `deregister`.
pub data PexCall (fl : Float) : Type 0 where
  register : PeerInfo fl → PexCall fl
  forget : NodeId → PexCall fl
  merge : List (PeerInfo fl) → PexCall fl
  deregister : PexCall fl

module _ {fl : Float} where
  unfoldable pub pex_step : PexCall fl → List (NodeId × PeerInfo fl) → List (NodeId × PeerInfo fl)
  pex_step (register peer) known = add_peer peer known
  pex_step (forget id) known = remove_peer id known
  pex_step (merge peers) known = merge_peers peers known
  pex_step deregister known = []

  unfoldable pub pex_run :
      List (PexCall fl) → List (NodeId × PeerInfo fl) → List (NodeId × PeerInfo fl)
  pex_run [] known = known
  pex_run (c ∷ cs) known = pex_run cs (pex_step c known)

  add_peer-bound :
      (peer : PeerInfo fl) (known : List (NodeId × PeerInfo fl))
      → length known ≤ max_peers
      → length (add_peer peer known) ≤ max_peers
  unfolding add_peer
  add_peer-bound peer known h =
      ground (arith, h, length-insert-le ℕ_discrete peer.node_id peer known)

  or_insert-bound :
      (peer : PeerInfo fl) (known : List (NodeId × PeerInfo fl)) (o : Option (PeerInfo fl))
      → length known < max_peers
      → length (or_insert peer known o) ≤ max_peers
  unfolding or_insert
  or_insert-bound peer known none h =
      omega (arith, h, length-insert-le ℕ_discrete peer.node_id peer known)
  or_insert-bound peer known (some old) h = omega (arith, h)

  merge_peers-bound :
      (peers : List (PeerInfo fl)) (known : List (NodeId × PeerInfo fl))
      → length known ≤ max_peers
      → length (merge_peers peers known) ≤ max_peers
  unfolding merge_peers
  merge_peers-bound [] known h = h
  merge_peers-bound (peer ∷ peers) known h = elim (Bool-cases (leb max_peers (length known))) [
    | inl full ↦ rw full h
    | inr space ↦
        let room : length known < max_peers = ground (arith, space) in
        rw space (
          merge_peers-bound peers (or_insert peer known (lookup ℕ_discrete peer.node_id known))
            (or_insert-bound peer known (lookup ℕ_discrete peer.node_id known) room))
  ]

  -- From a cache of at most 200 peers, no sequence of registrations, removals, merges and
  -- deregistrations makes one of more.
  pub pex_run-bound :
      (calls : List (PexCall fl)) (known : List (NodeId × PeerInfo fl))
      → length known ≤ max_peers
      → length (pex_run calls known) ≤ max_peers
  unfolding pex_run
  pex_run-bound [] known h = h
  pex_run-bound (c ∷ cs) known h = pex_run-bound cs (pex_step c known) (step-bound c)
    where
      step-bound : (c : PexCall fl) → length (pex_step c known) ≤ max_peers
      step-bound (register peer) = unfold pex_step in add_peer-bound peer known h
      step-bound (forget id) =
          unfold pex_step remove_peer in omega (arith, h, length-remove-le ℕ_discrete id known)
      step-bound (merge peers) = unfold pex_step in merge_peers-bound peers known h
      step-bound deregister = unfold pex_step in omega arith

  lookup-or_insert :
      (peer p : PeerInfo fl) (id : NodeId) (known : List (NodeId × PeerInfo fl))
      → lookup ℕ_discrete id known ≡ some p
      → lookup ℕ_discrete id (or_insert peer known (lookup ℕ_discrete peer.node_id known)) ≡ some p
  unfolding or_insert
  lookup-or_insert peer p id known h = elim (Option-cases (lookup ℕ_discrete peer.node_id known)) [
    | inl e ↦
        rw
          (
            e,
            lookup-insert_ne ℕ_discrete peer.node_id id peer known
                (λ q. ground (arith, rw q at e, h)),
          )
          h
    | inr e ↦ rw e.1 h
  ]

  -- What other peers say does not replace what is known: a merge leaves the entry of a known peer.
  pub merge_peers_keeps :
      (peers : List (PeerInfo fl)) (p : PeerInfo fl) (id : NodeId)
      (known : List (NodeId × PeerInfo fl))
      → lookup ℕ_discrete id known ≡ some p
      → lookup ℕ_discrete id (merge_peers peers known) ≡ some p
  unfolding merge_peers
  merge_peers_keeps [] p id known h = h
  merge_peers_keeps (peer ∷ peers) p id known h = elim (Bool-cases (leb max_peers (length known))) [
    | inl full ↦ rw full h
    | inr space ↦ rw space (
        merge_peers_keeps peers p id (or_insert peer known (lookup ℕ_discrete peer.node_id known))
          (lookup-or_insert peer p id known h))
  ]
