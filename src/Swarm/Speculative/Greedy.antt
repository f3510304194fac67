-- ===== src/Swarm/Speculative/Greedy.antt =====
-- Speculative decoding against plain greedy decoding: crates/hivebear-mesh/src/swarm/speculative.rs.

use hive_bear.Prelude.{
  ℕ, zero, suc, ◌+◌, ◌≤◌, ◌%◌, ◌^◌, ◌≡◌, refl, sym, ap, ◌∙◌, Bool, true, false, ◌&&◌, Option, none,
  some, List, [], ◌∷◌, ◌++◌, arith, length, length-append, ltb, ◌==◌, if◌then◌else◌, Bool-cases,
  inl, inr, append_assoc, append-nil,
}
use hive_bear.MeshError.{MeshError}
use hive_bear.Peer.{Uuid}
use hive_bear.Swarm.Speculative.{
  SpeculativeConfig, VerificationResult, Answer, answered, unsent, failed, no_answer,
  await_verification, Network, after_send, Session, Status, push, emit, verified_tokens, settle,
  is_none, accept, verify, round, after_round, stream_from, fresh_session, stream_tokens,
}

-- Plain decoding: n tokens, each the target model's choice after the context.
abbrev pub greedy : (List ℕ → ℕ) → ℕ → List ℕ → List ℕ
greedy next zero c = []
greedy next (suc n) c = next c ∷ greedy next n (c ++ next c ∷ [])

-- The verification by the target model: it accepts the draft up to the first token that it would not
-- choose itself, and corrects that one.
abbrev pub checked : (List ℕ → ℕ) → List ℕ → List ℕ → VerificationResult
checked next c [] = record { accepted_count = 0; correction_token = none }
checked next c (t ∷ ts) =
    if t == next c
    then record (checked next (c ++ t ∷ []) ts) {
      accepted_count = suc (checked next (c ++ t ∷ []) ts).accepted_count;
    }
    else record { accepted_count = 0; correction_token = some (next c) }

module _ (next : List ℕ → ℕ) where
  greedy-snoc :
      (n : ℕ) (c : List ℕ)
      → greedy next (suc n) c ≡ greedy next n c ++ next (c ++ greedy next n c) ∷ []
  greedy-snoc zero c = ap (λ d. next d ∷ []) (sym (append-nil c))
  greedy-snoc (suc n) c =
      ap (λ (l : List ℕ). next c ∷ l)
        (greedy-snoc n (c ++ next c ∷ [])
          ∙ ap (λ d. greedy next n (c ++ next c ∷ []) ++ next d ∷ [])
              (append_assoc c (next c ∷ []) (greedy next n (c ++ next c ∷ []))))

  -- How many tokens the verification of a draft gives.
  abbrev pub yield : List ℕ → List ℕ → ℕ
  yield c [] = 0
  yield c (t ∷ ts) = if t == next c then suc (yield (c ++ t ∷ []) ts) else 1

  pub yield-bounds :
      (c : List ℕ) (t : ℕ) (ts : List ℕ)
      → (1 ≤ yield c (t ∷ ts)) × (yield c (t ∷ ts) ≤ suc (length ts))
  yield-bounds c t [] = ground arith
  yield-bounds c t (u ∷ us) = ground (arith, yield-bounds (c ++ t ∷ []) u us)

  pub verified_tokens-greedy :
      (c ts : List ℕ) → verified_tokens ts (checked next c ts) ≡ greedy next (yield c ts) c
  unfolding verified_tokens
  verified_tokens-greedy c [] = refl
  verified_tokens-greedy c (t ∷ ts) = elim (Bool-cases (t == next c)) [
    | inl e ↦
        let same : t ≡ next c = ground (arith, e) in
        rw (e, verified_tokens-greedy (c ++ t ∷ []) ts, same) refl
    | inr e ↦ rw e refl
  ]

  module _ (prompt : List ℕ) where
    -- The tokens that were emitted are those of plain decoding.
    abbrev pub IsGreedy : List ℕ → Type 0
    IsGreedy emitted = emitted ≡ greedy next (length emitted) prompt

    abbrev Follows : Session → Type 0
    Follows s = (s.context_tokens ≡ prompt ++ s.emitted) × IsGreedy s.emitted

    abbrev Emits : Session × Bool → Type 0
    Emits (s, true) = Follows s
    Emits (s, false) = IsGreedy s.emitted

    abbrev Settles : Session × Option Status → Type 0
    Settles (s, none) = Follows s
    Settles (s, some e) = IsGreedy s.emitted

    length-snoc : (xs : List ℕ) (x : ℕ) → length (xs ++ x ∷ []) ≡ suc (length xs)
    length-snoc xs x = omega (arith, length-append xs (x ∷ []))

    step-IsGreedy : (s : Session) → Follows s → IsGreedy (s.emitted ++ next s.context_tokens ∷ [])
    step-IsGreedy s f =
        rw
          (
            length-snoc s.emitted (next s.context_tokens),
            greedy-snoc (length s.emitted) prompt,
            f.0,
          )
          (ap (λ e. e ++ next (prompt ++ e) ∷ []) f.1)

    emit-Emits :
        (listening : ℕ → Bool) (n : ℕ) (s : Session)
        → Follows s
        → Emits (emit listening s (greedy next n s.context_tokens))
    unfolding emit push
    emit-Emits listening zero s f = f
    emit-Emits listening (suc n) s f =
        let t = next s.context_tokens in
        let after : Session = record {
          context_tokens = s.context_tokens ++ t ∷ [];
          total_generated = (s.total_generated + 1) % 2 ^ 32;
          emitted = s.emitted ++ t ∷ [];
        } in
        elim (Bool-cases (listening ((s.total_generated + 1) % 2 ^ 32))) [
          | inl e ↦ rw e (
              emit-Emits listening n after (
                ap (λ c. c ++ t ∷ []) f.0 ∙ append_assoc prompt s.emitted (t ∷ []),
                step-IsGreedy s f,
              ))
          | inr e ↦ rw e f.1
        ]

    settle-Settles : (v : VerificationResult) (r : Session × Bool) → Emits r → Settles (settle v r)
    unfolding settle
    settle-Settles v (s, false) f = f
    settle-Settles v (s, true) f =
        elim (Bool-cases (v.accepted_count == 0 && is_none v.correction_token)) [
          | inl e ↦ rw e f.1
          | inr e ↦ rw e f
        ]

    after_round-IsGreedy :
        (r : Session × Option Status) (rest : Session × Status)
        → Settles r
        → (Follows r.0 → IsGreedy rest.0.emitted)
        → IsGreedy (after_round r rest).0.emitted
    unfolding after_round
    after_round-IsGreedy (s, none) rest f k = k f
    after_round-IsGreedy (s, some e) rest f k = f

    module _ (net : Network) (sid : Uuid)
        (honest : (c ts : List ℕ) (v : VerificationResult)
          → await_verification sid (net.verify_inbox c ts) ≡ answered v
          → v ≡ checked next c ts) where
      accept-Settles :
          (s : Session) (t : ℕ) (ts : List ℕ) (o : Option MeshError) (a : Answer VerificationResult)
          → await_verification sid (net.verify_inbox s.context_tokens (t ∷ ts)) ≡ a
          → Follows s
          → Settles (accept net s (t ∷ ts) (after_send o a))
      unfolding accept after_send
      accept-Settles s t ts (some e) a h f = f.1
      accept-Settles s t ts none (answered v) h f =
          rw
            (honest s.context_tokens (t ∷ ts) v h, verified_tokens-greedy s.context_tokens (t ∷ ts))
            (settle-Settles (checked next s.context_tokens (t ∷ ts)) _
              (emit-Emits net.listening (yield s.context_tokens (t ∷ ts)) s f))
      accept-Settles s t ts none (unsent e) h f = f.1
      accept-Settles s t ts none (failed e) h f = f.1
      accept-Settles s t ts none no_answer h f = f.1

      verify-Settles :
          (s : Session) (a : Answer (List ℕ)) → Follows s → Settles (verify net sid s a)
      unfolding verify
      verify-Settles s (answered []) f = f.1
      verify-Settles s (answered (t ∷ ts)) f =
          accept-Settles s t ts (net.verify_send s.context_tokens (t ∷ ts)) _ refl f
      verify-Settles s (unsent e) f = f.1
      verify-Settles s (failed e) f = f.1
      verify-Settles s no_answer f = f.1

      stream_from-IsGreedy :
          (config : SpeculativeConfig) (max_tokens n : ℕ) (s : Session)
          → Follows s
          → IsGreedy (stream_from net sid config max_tokens n s).0.emitted
      unfolding stream_from round
      stream_from-IsGreedy config max_tokens zero s f = f.1
      stream_from-IsGreedy config max_tokens (suc n) s f =
          let r = round net sid config max_tokens s in
          elim (Bool-cases (ltb s.total_generated max_tokens)) [
            | inl e ↦ rw e (
                after_round-IsGreedy r (stream_from net sid config max_tokens n r.0)
                  (verify-Settles s _ f) (stream_from-IsGreedy config max_tokens n r.0))
            | inr e ↦ rw e f.1
          ]

-- If the verifier's answers, where it gives one, are the target model's check of the draft, then the
-- emitted tokens are the first tokens that plain decoding by the target model would give after the
-- prompt, whatever the drafter sends, and also when a peer or the transport fails or the receiver leaves.
pub stream_tokens-IsGreedy :
    (next : List ℕ → ℕ) (net : Network) (sid : Uuid) (config : SpeculativeConfig) (prompt : List ℕ)
    (max_tokens : ℕ)
    → ((c ts : List ℕ) (v : VerificationResult)
        → await_verification sid (net.verify_inbox c ts) ≡ answered v
        → v ≡ checked next c ts)
    → IsGreedy next prompt (stream_tokens net sid config prompt max_tokens).0.emitted
unfolding stream_tokens
stream_tokens-IsGreedy next net sid config prompt max_tokens honest =
    stream_from-IsGreedy next prompt net sid honest config max_tokens (suc max_tokens)
      (fresh_session prompt) (sym (append-nil prompt), refl)
