-- ===== src/Coordinator/Run.antt =====
-- The coordination server over a history of requests and prune rounds, one at a time:
-- crates/hivebear-coordinator/src/main.rs. Requests that only read leave the state as it is.
pub mod Signals
pub mod Delivery
pub mod Replay
pub mod Presence
use hive_bear.Prelude.{ℕ, Option, List, [], ◌∷◌}
use hive_bear.Prelude.Text.{Text}
use hive_bear.Float.{Float}
use hive_bear.Peer.{NodeId, PeerInfo}
use hive_bear.Coordinator.{
  State, SignalMessage, prune, register_node, heartbeat_node, deregister_node, send_signal,
  poll_signals,
}
use hive_bear.Coordinator.Karma.{WorkReceipt, claim_karma}

-- The routes that change the state, and the background task.
pub data Request (fl : Float) : Type 0 where
  register heartbeat : PeerInfo fl → Request fl
  deregister : Option Text → Request fl
  signal : SignalMessage → Request fl
  poll : Text → Request fl
  claim : WorkReceipt → Request fl
  pruning : Request fl

module _ {fl : Float} (to_hex : NodeId → Text) where
  unfoldable pub step : ℕ → Request fl → State fl → State fl
  step now (register info) s = (register_node to_hex now info s).0
  step now (heartbeat info) s = (heartbeat_node to_hex now info s).0
  step now (deregister id) s = (deregister_node id s).0
  step now (signal m) s = (send_signal m s).0
  step now (poll id) s = (poll_signals id s).0
  step now (claim r) s = (claim_karma now r s).0
  step now pruning s = prune now s

  unfoldable pub run : List (ℕ × Request fl) → State fl → State fl
  unfolding step
  run [] s = s
  run ((now, r) ∷ rs) s = run rs (step now r s)
