-- ===== src/Swarm/Speculative/Waits.antt =====
-- Where a session may wait for ever: crates/hivebear-mesh/src/swarm/speculative.rs.

use hive_bear.Prelude.{
  ℕ, zero, suc, ◌-◌, ◌≡◌, ◌≢◌, ◌⊎◌, refl, Bool, true, false, ◌&&◌, Option, none, some, List, [],
  ◌∷◌, ltb, ◌==◌, min, Bool-cases, inl, inr,
}
use hive_bear.MeshError.{MeshError}
use hive_bear.Peer.{Uuid}
use hive_bear.Swarm.Speculative.{
  SpeculativeConfig, VerificationResult, Answer, answered, unsent, failed, no_answer, await_draft,
  await_verification, waiting, returned, finished, no_draft, no_progress, receiver_dropped,
  send_failed, peer_failed, Network, after_send, Session, Status, out_of_fuel, emit,
  verified_tokens, settle, is_none, accept, verify, round, after_round, stream_from,
}

-- A wait for the drafter or the verifier, in the context `c`, that no message ends.
abbrev pub IsUnanswered : Network → Uuid → List ℕ → Type 0
IsUnanswered net sid c =
    ((k : ℕ) × (await_draft sid (net.draft_inbox c k) ≡ no_answer))
    ⊎ ((d : List ℕ) × (await_verification sid (net.verify_inbox c d) ≡ no_answer))

module _ (net : Network) (sid : Uuid) where
  -- A call that waits for ever does so in a wait that no message ends.
  abbrev pub Waits : Session × Status → Type 0
  Waits (s, waiting) = IsUnanswered net sid s.context_tokens
  Waits (s, e) = Unit

  abbrev IfWaits : Session × Option Status → Type 0
  IfWaits (s, none) = Unit
  IfWaits (s, some e) = Waits (s, e)

  settle-IfWaits : (v : VerificationResult) (r : Session × Bool) → IfWaits (settle v r)
  unfolding settle
  settle-IfWaits v (s, false) = tt
  settle-IfWaits v (s, true) =
      elim (Bool-cases (v.accepted_count == 0 && is_none v.correction_token)) [
        | inl e ↦ rw e tt
        | inr e ↦ rw e tt
      ]

  accept-IfWaits :
      (s : Session) (draft : List ℕ) (o : Option MeshError) (a : Answer VerificationResult)
      → (a ≡ no_answer → IsUnanswered net sid s.context_tokens)
      → IfWaits (accept net s draft (after_send o a))
  unfolding accept after_send
  accept-IfWaits s draft (some e) a w = tt
  accept-IfWaits s draft none (answered v) w =
      settle-IfWaits v (emit net.listening s (verified_tokens draft v))
  accept-IfWaits s draft none (unsent e) w = tt
  accept-IfWaits s draft none (failed e) w = tt
  accept-IfWaits s draft none no_answer w = w refl

  verify-IfWaits :
      (s : Session) (o : Option MeshError) (a : Answer (List ℕ))
      → (a ≡ no_answer → IsUnanswered net sid s.context_tokens)
      → IfWaits (verify net sid s (after_send o a))
  unfolding verify after_send
  verify-IfWaits s (some e) a w = tt
  verify-IfWaits s none (answered []) w = tt
  verify-IfWaits s none (answered (t ∷ ts)) w =
      accept-IfWaits s (t ∷ ts) (net.verify_send s.context_tokens (t ∷ ts))
        (await_verification sid (net.verify_inbox s.context_tokens (t ∷ ts))) (λ h. inr (t ∷ ts, h))
  verify-IfWaits s none (unsent e) w = tt
  verify-IfWaits s none (failed e) w = tt
  verify-IfWaits s none no_answer w = w refl

  after_round-Waits :
      (r : Session × Option Status) (rest : Session × Status)
      → IfWaits r
      → Waits rest
      → Waits (after_round r rest)
  unfolding after_round
  after_round-Waits (s, none) rest p q = q
  after_round-Waits (s, some e) rest p q = p

  pub stream_from-Waits :
      (config : SpeculativeConfig) (max_tokens n : ℕ) (s : Session)
      → Waits (stream_from net sid config max_tokens n s)
  unfolding stream_from round
  stream_from-Waits config max_tokens zero s = tt
  stream_from-Waits config max_tokens (suc n) s =
      let next = round net sid config max_tokens s in
      let k = min config.draft_length (max_tokens - s.total_generated) in
      elim (Bool-cases (ltb s.total_generated max_tokens)) [
        | inr e ↦ rw e tt
        | inl e ↦ rw e (
            after_round-Waits next (stream_from net sid config max_tokens n next.0)
              (verify-IfWaits s (net.draft_send s.context_tokens)
                (await_draft sid (net.draft_inbox s.context_tokens k)) (λ h. inl (k, h)))
              (stream_from-Waits config max_tokens n next.0))
      ]

  pub Waits-returned :
      (s : Session) (e : Status)
      → e ≢ out_of_fuel
      → Waits (s, e)
      → (returned e ≡ true) ⊎ IsUnanswered net sid s.context_tokens
  unfolding returned
  Waits-returned s finished h w = inl refl
  Waits-returned s no_draft h w = inl refl
  Waits-returned s no_progress h w = inl refl
  Waits-returned s receiver_dropped h w = inl refl
  Waits-returned s waiting h w = inr w
  Waits-returned s out_of_fuel h w = absurd (h refl)
  Waits-returned s (send_failed e) h w = inl refl
  Waits-returned s (peer_failed e) h w = inl refl
