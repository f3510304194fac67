-- ===== src/Trust/Verification.antt =====
-- Spot checks of a peer's computation: crates/hivebear-mesh/src/trust/verification.rs. SHA-256 is the
-- parameter `sha256`, and the transport is the parameter `Wire`: why a challenge was not sent, and the
-- message that `recv` gives after it. A random number is an argument. The log is not modelled.
use hive_bear.Prelude.{
  ℕ, ◌≡◌, refl, Bool, true, false, ◌&&◌, Option, none, some, List, ◌==◌, if◌then◌else◌,
}
use hive_bear.Float.{Float, clamp}
use hive_bear.MeshError.{MeshError, Result, ok, err}
use hive_bear.Peer.{NodeId, Uuid}

pub record VerifyChallenge : Type 0 where
  pub session_id : Uuid
  pub layer_index : ℕ
  pub input_hash : List ℕ

pub data Reply : Type 0 where
  verify_response : Uuid → List ℕ → Bool → Reply
  other : Reply

pub data Incoming : Type 0 where
  received : NodeId → Reply → Incoming
  recv_failed : MeshError → Incoming

pub record Wire : Type 0 where
  pub send : NodeId → VerifyChallenge → Option MeshError
  pub recv : NodeId → VerifyChallenge → Incoming

module _ (fl : Float) where
  unfoldable new_verifier : fl.F64 → fl.F64
  new_verifier rate = clamp fl (fl.literal 1 2) (fl.literal 1 0) rate

  -- `gen_bool` compares a random number of [0, 1) with the rate.
  unfoldable should_verify : fl.F64 → fl.F64 → Bool
  should_verify rate random = if fl.less_eq (fl.literal 1 0) rate then true else fl.less random rate

unfoldable verdict : NodeId → Uuid → Incoming → Result Bool
verdict peer session_id (received from (verify_response sid output_hash passed)) =
    ok (if sid == session_id && from == peer then passed else false)
verdict peer session_id (received from other) = ok false
verdict peer session_id (recv_failed e) = err e

unfoldable if_sent : Option MeshError → Result Bool → Result Bool
if_sent none answer = answer
if_sent (some e) answer = err e

module _ (sha256 : List ℕ → List ℕ) (wire : Wire) where
  unfoldable challenge_of : Uuid → ℕ → List ℕ → VerifyChallenge
  challenge_of session_id layer_index expected_input = record {
    session_id = session_id;
    layer_index = layer_index;
    input_hash = sha256 expected_input;
  }

  unfoldable verify_layer : NodeId → Uuid → ℕ → List ℕ → Result Bool
  unfolding challenge_of verdict if_sent
  verify_layer peer session_id layer_index expected_input =
      let challenge = challenge_of session_id layer_index expected_input in
      if_sent (wire.send peer challenge) (verdict peer session_id (wire.recv peer challenge))

-- The verdict is what the peer says of itself: the hash of its output does not change it.
verdict-output_hash :
    (peer : NodeId) (session_id sid : Uuid) (from : NodeId) (a b : List ℕ) (passed : Bool)
    → verdict peer session_id (received from (verify_response sid a passed))
      ≡ verdict peer session_id (received from (verify_response sid b passed))
unfolding verdict
verdict-output_hash peer session_id sid from a b passed = refl
