-- ===== src/Swarm/Speculative.antt =====
-- Speculative decoding: crates/hivebear-mesh/src/swarm/speculative.rs. The transport is a parameter,
-- `Network`: whether a send fails, and which messages `recv` gives after a request, as functions of the
-- context, which grows in every round that goes on. Of a `Token`, the model keeps its id. The calls on
-- fuel end by `out_of_fuel`, which the code does not have.
pub mod Greedy
pub mod Waits
pub mod Limit
pub mod Complete
mod Tests
use hive_bear.Prelude.{
  ℕ, zero, suc, ◌+◌, ◌-◌, ◌%◌, ◌^◌, Bool, true, false, ◌&&◌, Option, none, some, List, [], ◌∷◌,
  ◌++◌, take, ltb, ◌==◌, if◌then◌else◌, min,
}
use hive_bear.Prelude.Text.{Text, codes}
use hive_bear.MeshError.{MeshError}
use hive_bear.Peer.{Uuid}

pub record SpeculativeConfig : Type 0 where
  pub enabled : Bool
  pub draft_length : ℕ
  pub draft_model : Option Text

unfoldable default_config : SpeculativeConfig
default_config = record { enabled = true; draft_length = 5; draft_model = none }

pub record VerificationResult : Type 0 where
  pub accepted_count : ℕ
  pub correction_token : Option ℕ

-- What `recv` gives, as far as the loop tells it apart.
pub data Received : Type 0 where
  draft_tokens : Uuid → List ℕ → Received
  verify_draft : Uuid → VerificationResult → Received
  error : Text → Received
  recv_failed : MeshError → Received
  other : Received

-- The answer to a request: it was not sent, `recv` failed or the peer sent an error, or no message that
-- ends the loop of `recv` ever arrives, so that the loop goes on for ever.
pub data Answer (A : Type 0) : Type 0 where
  answered : A → Answer A
  unsent : MeshError → Answer A
  failed : MeshError → Answer A
  no_answer : Answer A

-- The loops of `recv` that wait for an answer of this session. The messages up to the first one that ends
-- the loop settle it; a list without such a message stands for a wait that nothing ends.
unfoldable pub await_draft : Uuid → List Received → Answer (List ℕ)
await_draft sid [] = no_answer
await_draft sid (draft_tokens s tokens ∷ rest) =
    let later = await_draft sid rest in if s == sid then answered tokens else later
await_draft sid (verify_draft s v ∷ rest) = await_draft sid rest
await_draft sid (error message ∷ rest) =
    failed (MeshError.pipeline (codes "Drafter error: " ++ message))
await_draft sid (recv_failed e ∷ rest) = failed e
await_draft sid (other ∷ rest) = await_draft sid rest

unfoldable pub await_verification : Uuid → List Received → Answer VerificationResult
await_verification sid [] = no_answer
await_verification sid (draft_tokens s tokens ∷ rest) = await_verification sid rest
await_verification sid (verify_draft s v ∷ rest) =
    let later = await_verification sid rest in if s == sid then answered v else later
await_verification sid (error message ∷ rest) =
    failed (MeshError.pipeline (codes "Verifier error: " ++ message))
await_verification sid (recv_failed e ∷ rest) = failed e
await_verification sid (other ∷ rest) = await_verification sid rest

-- The transport, and whether the receiver of the tokens is still there when the n-th token is sent.
pub record Network : Type 0 where
  pub draft_send : List ℕ → Option MeshError
  pub draft_inbox : List ℕ → ℕ → List Received
  pub verify_send : List ℕ → List ℕ → Option MeshError
  pub verify_inbox : List ℕ → List ℕ → List Received
  pub listening : ℕ → Bool

unfoldable pub after_send : {A : Type 0} → Option MeshError → Answer A → Answer A
after_send none reply = reply
after_send (some e) reply = unsent e

-- `total_generated` is a `u32`; `emitted` are the tokens that were sent on the channel.
pub record Session : Type 0 where
  pub context_tokens : List ℕ
  pub total_generated : ℕ
  pub emitted : List ℕ

-- How a call stands when the model stops. `waiting` is a call that awaits `recv` for ever and does not
-- return, `out_of_fuel` is the model's alone, and by the others the call returns.
pub data Status : Type 0 where
  finished no_draft no_progress receiver_dropped waiting out_of_fuel : Status
  send_failed peer_failed : MeshError → Status

unfoldable pub returned : Status → Bool
returned finished = true
returned no_draft = true
returned no_progress = true
returned receiver_dropped = true
returned waiting = false
returned out_of_fuel = false
returned (send_failed e) = true
returned (peer_failed e) = true

-- Whether the cleanup after the loop runs: a `break` reaches it, a `return` does not.
unfoldable pub releases : Status → Bool
releases finished = true
releases no_draft = true
releases no_progress = true
releases receiver_dropped = false
releases waiting = false
releases out_of_fuel = false
releases (send_failed e) = true
releases (peer_failed e) = false

unfoldable pub push : ℕ → Session → Session
push t s = record s {
  context_tokens = s.context_tokens ++ t ∷ [];
  total_generated = (s.total_generated + 1) % 2 ^ 32;
}

-- Emits tokens one by one; false if the receiver was dropped.
unfoldable pub emit : (ℕ → Bool) → Session → List ℕ → Session × Bool
unfolding push
emit listening s [] = (s, true)
emit listening s (t ∷ ts) =
    let next = push t s in
    let rest = emit listening (record next { emitted = s.emitted ++ t ∷ [] }) ts in
    if listening next.total_generated then rest else (next, false)

unfoldable pub correction : Option ℕ → List ℕ
correction none = []
correction (some c) = c ∷ []

-- The tokens of a verification: the accepted ones, then the correction.
unfoldable pub verified_tokens : List ℕ → VerificationResult → List ℕ
unfolding correction
verified_tokens draft v = take v.accepted_count draft ++ correction v.correction_token

unfoldable pub is_none : Option ℕ → Bool
is_none none = true
is_none (some c) = false

-- The end of a round: `none` where the loop goes on.
unfoldable pub settle : VerificationResult → Session × Bool → Session × Option Status
settle v (s, false) = (s, some receiver_dropped)
settle v (s, true) =
    if v.accepted_count == 0 && is_none v.correction_token then (s, some no_progress) else (s, none)

unfoldable pub accept :
    Network → Session → List ℕ → Answer VerificationResult → Session × Option Status
accept net s draft (answered v) = settle v (emit net.listening s (verified_tokens draft v))
accept net s draft (unsent e) = (s, some (send_failed e))
accept net s draft (failed e) = (s, some (peer_failed e))
accept net s draft no_answer = (s, some waiting)

unfoldable pub verify : Network → Uuid → Session → Answer (List ℕ) → Session × Option Status
verify net sid s (answered []) = (s, some no_draft)
verify net sid s (answered (t ∷ ts)) = accept net s (t ∷ ts) (
    after_send (net.verify_send s.context_tokens (t ∷ ts))
      (await_verification sid (net.verify_inbox s.context_tokens (t ∷ ts))))
verify net sid s (unsent e) = (s, some (send_failed e))
verify net sid s (failed e) = (s, some (peer_failed e))
verify net sid s no_answer = (s, some waiting)

-- One round of the loop.
unfoldable pub round : Network → Uuid → SpeculativeConfig → ℕ → Session → Session × Option Status
round net sid config max_tokens s =
    let k = min config.draft_length (max_tokens - s.total_generated) in
    verify net sid s (
      after_send (net.draft_send s.context_tokens)
        (await_draft sid (net.draft_inbox s.context_tokens k)))

unfoldable pub after_round : Session × Option Status → Session × Status → Session × Status
after_round (s, none) rest = rest
after_round (s, some e) rest = (s, e)

unfoldable pub stream_from : Network → Uuid → SpeculativeConfig → ℕ → ℕ → Session → Session × Status
stream_from net sid config max_tokens zero s = (s, out_of_fuel)
stream_from net sid config max_tokens (suc n) s =
    let next = round net sid config max_tokens s in
    let rest = stream_from net sid config max_tokens n next.0 in
    if ltb s.total_generated max_tokens then after_round next rest else (s, finished)

abbrev pub fresh_session : List ℕ → Session
fresh_session prompt = record { context_tokens = prompt; total_generated = 0; emitted = [] }

-- `stream_tokens`, on one round more than tokens are asked for.
unfoldable pub stream_tokens : Network → Uuid → SpeculativeConfig → List ℕ → ℕ → Session × Status
stream_tokens net sid config prompt max_tokens =
    stream_from net sid config max_tokens (suc max_tokens) (fresh_session prompt)
