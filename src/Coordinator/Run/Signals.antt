-- ===== src/Coordinator/Run/Signals.antt =====
-- The signal queues over a history: their bound, their routing and the order of delivery.
use mathlib.Core.Logic.{ite}
use hive_bear.Prelude.{
  ℕ, ◌≤◌, ◌≡◌, refl, none, some, List, [], ◌∷◌, ◌++◌, arith, Option-cases, inl, inr, length, All,
  All-append, ltb, if◌then◌else◌, length-append, Bool-cases,
}
use hive_bear.Prelude.Map.{lookup, remove, lookup-insert, lookup-remove}
use hive_bear.Prelude.Text.{Text, text_dec}
use hive_bear.Float.{Float}
use hive_bear.Peer.{NodeId}
use hive_bear.Coordinator.{
  State, SignalMessage, NodeEntry, start, is_active, clear_pruned, prune, register_node,
  heartbeat_node, deregister_node, send_signal, poll_signals, or_default,
}
use hive_bear.Coordinator.Karma.{WorkReceipt, claim_award, claim_karma}
use hive_bear.Coordinator.Run.{
  Request, register, heartbeat, deregister, signal, poll, claim, pruning, step, run,
}

-- The messages that wait for a node.
abbrev pub queue_of : Text → List (Text × List SignalMessage) → List SignalMessage
queue_of k m = or_default [] (lookup text_dec k m)

abbrev pub inbox : {fl : Float} → Text → State fl → List SignalMessage
inbox k s = queue_of k s.signals

-- At most 50 messages, each addressed to the node.
pub record IsBounded (k : Text) (queue : List SignalMessage) : Type 0 where
  pub bounded : length queue ≤ 50
  pub routed : All (λ m. m.to_node ≡ k) queue

remove-IsBounded :
    (k id : Text) (m : List (Text × List SignalMessage))
    → IsBounded k (queue_of k m)
    → IsBounded k (queue_of k (remove text_dec id m))
remove-IsBounded k id m v = ground (arith, lookup-remove text_dec id k m)

appended-IsBounded :
    (k : Text) (m : SignalMessage) (q : List SignalMessage)
    → m.to_node ≡ k
    → IsBounded k q
    → IsBounded k (if ltb (length q) 50 then q ++ m ∷ [] else q)
appended-IsBounded k m q e v = elim (Bool-cases (ltb (length q) 50)) [
  | inl room ↦ rw room (record {
    bounded = ground (arith, room, length-append q (m ∷ []));
    routed = All-append (λ x. x.to_node ≡ k) q (m ∷ []) v.routed (e, tt);
  })
  | inr full ↦ rw full v
]

module _ {fl : Float} where
  clear_pruned-IsBounded :
      (now : ℕ) (k : Text) (nodes : List (Text × NodeEntry fl))
      (m : List (Text × List SignalMessage))
      → IsBounded k (queue_of k m)
      → IsBounded k (queue_of k (clear_pruned now nodes m))
  unfolding clear_pruned
  clear_pruned-IsBounded now k [] m v = v
  clear_pruned-IsBounded now k ((id, e) ∷ nodes) m v = elim (Bool-cases (is_active now e)) [
    | inl active ↦ rw active (clear_pruned-IsBounded now k nodes m v)
    | inr stale ↦
        rw stale (
          remove-IsBounded k id (clear_pruned now nodes m) (clear_pruned-IsBounded now k nodes m v))
  ]

  -- What a queue holds after a send, and what the sender is told.
  pub send_signal_lem :
      (k : Text) (m : SignalMessage) (s : State fl)
      → inbox k (send_signal m s).0
        ≡ ite
            (text_dec m.to_node k)
            (if ltb (length (inbox k s)) 50 then inbox k s ++ m ∷ [] else inbox k s)
            (inbox k s)
  unfolding send_signal
  send_signal_lem k m s =
      let q = inbox m.to_node s in
      elim (Bool-cases (ltb (length q) 50)) [
        | inl room ↦
            rw (room, send_signal)
              (ground (arith, room, lookup-insert text_dec m.to_node k (q ++ m ∷ []) s.signals))
        | inr full ↦
            rw (full, send_signal)
              (ground (arith, full, lookup-insert text_dec m.to_node k q s.signals))
      ]

  -- A poll answers with the whole queue and leaves it empty; the other queues stay.
  pub poll_signals_lem :
      (k j : Text) (s : State fl)
      → ((poll_signals k s).1 ≡ inbox k s)
        × (inbox j (poll_signals k s).0 ≡ ite (text_dec k j) [] (inbox j s))
  unfolding poll_signals
  poll_signals_lem k j s = elim (Option-cases (lookup text_dec k s.signals)) [
    | inl e ↦ rw (e, poll_signals) (refl, ground arith)
    | inr (q, e) ↦ rw (e, poll_signals) (refl, ground (arith, lookup-remove text_dec k j s.signals))
  ]

  send_signal-IsBounded :
      (k : Text) (m : SignalMessage) (s : State fl)
      → IsBounded k (inbox k s)
      → IsBounded k (inbox k (send_signal m s).0)
  send_signal-IsBounded k m s v =
      rw (send_signal_lem k m s)
        (ite-IsBounded (text_dec m.to_node k) (λ e. appended-IsBounded k m (inbox k s) e v) v)
    where
      ite-IsBounded :
          {x y : List SignalMessage} {P : Type 0} (d : Dec P)
          → (P → IsBounded k x)
          → IsBounded k y
          → IsBounded k (ite d x y)
      ite-IsBounded (yes p) f v = f p
      ite-IsBounded (no p) f v = v

  poll_signals-IsBounded :
      (k id : Text) (s : State fl)
      → IsBounded k (inbox k s)
      → IsBounded k (inbox k (poll_signals id s).0)
  unfolding poll_signals
  poll_signals-IsBounded k id s v = elim (Option-cases (lookup text_dec id s.signals)) [
    | inl e ↦ rw (e, poll_signals) v
    | inr (q, e) ↦ rw (e, poll_signals) (remove-IsBounded k id s.signals v)
  ]

  claim_karma-signals :
      (now : ℕ) (r : WorkReceipt) (s : State fl) → (claim_karma now r s).0.signals ≡ s.signals
  unfolding claim_karma claim_award
  claim_karma-signals now r s = ground arith

  module _ (to_hex : NodeId → Text) where
    step-IsBounded :
        (now : ℕ) (q : Request fl) (k : Text) (s : State fl)
        → IsBounded k (inbox k s)
        → IsBounded k (inbox k (step to_hex now q s))
    unfolding step register_node heartbeat_node deregister_node prune
    step-IsBounded now (register info) k s v = v
    step-IsBounded now (heartbeat info) k s v = ground arith
    step-IsBounded now (deregister none) k s v = v
    step-IsBounded now (deregister (some id)) k s v = remove-IsBounded k id s.signals v
    step-IsBounded now (signal m) k s v = send_signal-IsBounded k m s v
    step-IsBounded now (poll id) k s v = poll_signals-IsBounded k id s v
    step-IsBounded now (claim r) k s v = rw (claim_karma-signals now r s) v
    step-IsBounded now pruning k s v = clear_pruned-IsBounded now k s.nodes s.signals v

    run-IsBounded :
        (rs : List (ℕ × Request fl)) (k : Text) (s : State fl)
        → IsBounded k (inbox k s)
        → IsBounded k (inbox k (run to_hex rs s))
    unfolding run
    run-IsBounded [] k s v = v
    run-IsBounded ((now, q) ∷ rs) k s v =
        run-IsBounded rs k (step to_hex now q s) (step-IsBounded now q k s v)

    -- After any history of the server, at most 50 messages wait for a node, and each of them is
    -- addressed to that node.
    pub run-start-IsBounded :
        (rs : List (ℕ × Request fl)) (k : Text) → IsBounded k (inbox k (run to_hex rs start))
    unfolding lookup
    run-start-IsBounded rs k =
        run-IsBounded rs k start (record { bounded = omega arith; routed = tt })
