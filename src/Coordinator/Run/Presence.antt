-- ===== src/Coordinator/Run/Presence.antt =====
-- Which nodes the coordination server lists: heartbeats and pruning.

use hive_bear.Prelude.{
  ℕ, ◌+◌, ◌≤◌, ◌<◌, ◌≡◌, ◌≢◌, refl, ap, true, none, some, List, [], ◌∷◌, arith, Option-cases, inl,
  inr, All, if◌then◌else◌,
}
use hive_bear.Prelude.Map.{lookup, insert, remove, lookup-insert, lookup-insert_self, lookup-remove}
use hive_bear.Prelude.Map.Distinct.{
  Distinct, insert-Distinct, remove-Distinct, retain-Distinct, lookup-retain,
}
use hive_bear.Prelude.Text.{Text, text_dec}
use hive_bear.Float.{Float}
use hive_bear.Peer.{NodeId, PeerInfo}
use hive_bear.Coordinator.{
  State, NodeEntry, SignalMessage, stale_after, is_active, clear_pruned, prune, register_node,
  heartbeat_node, deregister_node, send_signal, poll_signals,
}
use hive_bear.Coordinator.Karma.{WorkReceipt, claim_award, claim_karma}
use hive_bear.Coordinator.Run.{
  Request, register, heartbeat, deregister, signal, poll, claim, pruning, step, run,
}
use hive_bear.Coordinator.Run.Signals.{queue_of, inbox}

module _ {fl : Float} where
  clear_pruned_lem :
      (now : ℕ) (id : Text) (nodes : List (Text × NodeEntry fl))
      (m : List (Text × List SignalMessage))
      → Distinct text_dec nodes
      → queue_of id (clear_pruned now nodes m) ≡ elim (lookup text_dec id nodes) [
        | none ↦ queue_of id m
        | some e ↦ if is_active now e then queue_of id m else []
      ]
  unfolding clear_pruned lookup
  clear_pruned_lem now id [] m d = refl
  clear_pruned_lem now id ((j, e) ∷ nodes) m d = ground (
    arith,
    d.0,
    clear_pruned_lem now id nodes m d.1,
    lookup-remove text_dec j id (clear_pruned now nodes m),
  )

  -- A prune round keeps exactly the entries that were seen within the last 60 seconds, as they are, and
  -- empties the signal queue of exactly the nodes that it removes.
  pub prune_lem :
      (now : ℕ) (id : Text) (s : State fl)
      → Distinct text_dec s.nodes
      → (lookup text_dec id (prune now s).nodes ≡ elim (lookup text_dec id s.nodes) [
        | none ↦ none
        | some e ↦ if is_active now e then some e else none
      ])
        × (inbox id (prune now s) ≡ elim (lookup text_dec id s.nodes) [
          | none ↦ inbox id s
          | some e ↦ if is_active now e then inbox id s else []
        ])
  unfolding prune
  prune_lem now id s d = (
    lookup-retain text_dec (λ _ e. is_active now e) id s.nodes d,
    clear_pruned_lem now id s.nodes s.signals d,
  )

  -- The node is listed, and was seen at time t or later.
  pub record IsListed (t : ℕ) (id : Text) (nodes : List (Text × NodeEntry fl)) : Type 0 where
    pub entry : NodeEntry fl
    pub found : lookup text_dec id nodes ≡ some entry
    pub recent : t ≤ entry.last_seen
    pub distinct : Distinct text_dec nodes

  insert-IsListed :
      (t : ℕ) (id k : Text) (e : NodeEntry fl) (nodes : List (Text × NodeEntry fl))
      → t ≤ e.last_seen
      → IsListed t id nodes
      → IsListed t id (insert text_dec k e nodes)
  insert-IsListed t id k e nodes h v = elim (text_dec k id) [
    | yes p ↦ record {
      entry = e;
      found = ground (arith, p, lookup-insert text_dec k id e nodes);
      recent = h;
      distinct = insert-Distinct text_dec k e nodes v.distinct;
    }
    | no p ↦ record {
      entry = v.entry;
      found = ground (arith, p, lookup-insert text_dec k id e nodes, v.found);
      recent = v.recent;
      distinct = insert-Distinct text_dec k e nodes v.distinct;
    }
  ]

  remove-IsListed :
      (t : ℕ) (id k : Text) (nodes : List (Text × NodeEntry fl))
      → k ≢ id
      → IsListed t id nodes
      → IsListed t id (remove text_dec k nodes)
  remove-IsListed t id k nodes p v = record {
    entry = v.entry;
    found = ground (arith, p, lookup-remove text_dec k id nodes, v.found);
    recent = v.recent;
    distinct = remove-Distinct text_dec k nodes v.distinct;
  }

  prune-IsListed :
      (t now : ℕ) (id : Text) (s : State fl)
      → now < t + stale_after
      → IsListed t id s.nodes
      → IsListed t id (prune now s).nodes
  prune-IsListed t now id s lt v = record {
    entry = v.entry;
    found =
        let e : is_active now v.entry ≡ true = active in
        ground (arith, (prune_lem now id s v.distinct).0, v.found, e);
    recent = v.recent;
    distinct = unfold prune in retain-Distinct text_dec (λ _ e. is_active now e) s.nodes v.distinct;
  }
    where
      active : is_active now v.entry ≡ true
      active = unfold is_active in ground (arith, v.recent)

  send_signal-nodes : (m : SignalMessage) (s : State fl) → (send_signal m s).0.nodes ≡ s.nodes
  unfolding send_signal
  send_signal-nodes m s = ground arith

  poll_signals-nodes : (k : Text) (s : State fl) → (poll_signals k s).0.nodes ≡ s.nodes
  unfolding poll_signals
  poll_signals-nodes k s = ground arith

  claim_karma-nodes :
      (now : ℕ) (r : WorkReceipt) (s : State fl) → (claim_karma now r s).0.nodes ≡ s.nodes
  unfolding claim_karma claim_award
  claim_karma-nodes now r s = ground arith

  -- What a request may do while the node is to stay listed: it comes at time t or later and less than
  -- 60 seconds after t, and it does not deregister the node.
  abbrev Keeps : ℕ → Text → ℕ × Request fl → Type 0
  Keeps t id e = (t ≤ e.0) × (e.0 < t + stale_after) × (e.1 ≢ deregister (some id))

  module _ (to_hex : NodeId → Text) where
    -- A heartbeat does what a registration does, whether or not the node is listed.
    pub heartbeat-eq-register :
        (now : ℕ) (info : PeerInfo fl) (s : State fl)
        → heartbeat_node to_hex now info s ≡ register_node to_hex now info s
    unfolding heartbeat_node register_node
    heartbeat-eq-register now info s =
        elim (Option-cases (lookup text_dec (to_hex info.node_id) s.nodes)) [
          | inl e ↦ rw (e, heartbeat_node)
          | inr (entry, e) ↦ rw (e, heartbeat_node)
        ]

    step-IsListed :
        (t : ℕ) (id : Text) (now : ℕ) (q : Request fl) (s : State fl)
        → Keeps t id (now, q)
        → IsListed t id s.nodes
        → IsListed t id (step to_hex now q s).nodes
    unfolding step register_node deregister_node
    step-IsListed t id now (register info) s k v =
        insert-IsListed t id (to_hex info.node_id) (record { info = info; last_seen = now }) s.nodes
          k.0 v
    step-IsListed t id now (heartbeat info) s k v =
        rw (heartbeat-eq-register now info s, step)
          (insert-IsListed t id (to_hex info.node_id) (record { info = info; last_seen = now })
            s.nodes k.0 v)
    step-IsListed t id now (deregister none) s k v = v
    step-IsListed t id now (deregister (some j)) s k v =
        remove-IsListed t id j s.nodes (λ e. k.2 (ap (λ x. deregister (some x)) e)) v
    step-IsListed t id now (signal m) s k v = rw (send_signal-nodes m s) v
    step-IsListed t id now (poll j) s k v = rw (poll_signals-nodes j s) v
    step-IsListed t id now (claim r) s k v = rw (claim_karma-nodes now r s) v
    step-IsListed t id now pruning s k v = prune-IsListed t now id s k.1 v

    run-IsListed :
        (t : ℕ) (id : Text) (rs : List (ℕ × Request fl)) (s : State fl)
        → All (Keeps t id) rs
        → IsListed t id s.nodes
        → IsListed t id (run to_hex rs s).nodes
    unfolding run
    run-IsListed t id [] s k v = v
    run-IsListed t id ((now, q) ∷ rs) s k v =
        run-IsListed t id rs (step to_hex now q s) k.1 (step-IsListed t id now q s k.0 v)

    -- A node that sends a heartbeat at time t is listed throughout the next 60 seconds: whatever
    -- requests and prune rounds follow less than 60 seconds after t, as long as none deregisters it.
    pub heartbeat-Keeps-IsListed :
        (t : ℕ) (info : PeerInfo fl) (rs : List (ℕ × Request fl)) (s : State fl)
        → Distinct text_dec s.nodes
        → All (Keeps t (to_hex info.node_id)) rs
        → IsListed t (to_hex info.node_id) (run to_hex rs (heartbeat_node to_hex t info s).0).nodes
    heartbeat-Keeps-IsListed t info rs s d k =
        run-IsListed t (to_hex info.node_id) rs (heartbeat_node to_hex t info s).0 k (
          rw (heartbeat-eq-register t info s) (
            unfold register_node in
            (record {
              entry = record { info = info; last_seen = t };
              found =
                  lookup-insert_self text_dec (to_hex info.node_id)
                    (record { info = info; last_seen = t }) s.nodes;
              recent = omega arith;
              distinct =
                  insert-Distinct text_dec (to_hex info.node_id)
                    (record { info = info; last_seen = t }) s.nodes d;
            })))
