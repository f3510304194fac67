-- ===== src/Swarm/Speculative/Complete.antt =====
-- Sessions in which every peer answers: crates/hivebear-mesh/src/swarm/speculative.rs.
use mathlib.Core.Path.{subst}
use hive_bear.Prelude.{
  ℕ, zero, suc, ◌+◌, ◌-◌, ◌≤◌, ◌<◌, ◌%◌, ◌^◌, ◌≡◌, refl, ap, ◌∙◌, Bool, true, false, ◌&&◌, Option,
  none, some, List, [], ◌∷◌, ◌++◌, arith, length, length-append, ltb, ◌==◌, min, Bool-cases, inl,
  inr,
}
use hive_bear.MeshError.{MeshError}
use hive_bear.Peer.{Uuid}
use hive_bear.Swarm.Speculative.{
  SpeculativeConfig, VerificationResult, Answer, answered, await_draft, await_verification, Network,
  after_send, Session, Status, finished, push, emit, settle, is_none, accept, verify, round,
  after_round, stream_from, fresh_session, stream_tokens,
}
use hive_bear.Swarm.Speculative.Greedy.{
  greedy, checked, yield, yield-bounds, verified_tokens-greedy, stream_tokens-IsGreedy,
}
use hive_bear.Swarm.Speculative.Limit.{IsCounted}

-- A drafter that gives at least one token and at most as many as it is asked for, if it is asked for any.
abbrev pub Drafts : (List ℕ → ℕ → List ℕ) → List ℕ → ℕ → Type 0
Drafts drafter c k = (1 ≤ length (drafter c (suc k))) × (length (drafter c (suc k)) ≤ suc k)

-- An emission that succeeds, to a total of n tokens.
abbrev Reaches : ℕ → Session × Bool → Type 0
Reaches n r = (r.1 ≡ true) × IsCounted r.0 × (length r.0.emitted ≡ n)

emit-Reaches :
    (listening : ℕ → Bool) (s : Session) (ts : List ℕ)
    → ((n : ℕ) → listening n ≡ true)
    → length s.emitted + length ts < 2 ^ 32
    → IsCounted s
    → Reaches (length s.emitted + length ts) (emit listening s ts)
unfolding emit push
emit-Reaches listening s [] all b h = (refl, h, omega arith)
emit-Reaches listening s (t ∷ ts) all b h =
    let after : Session = record {
      context_tokens = s.context_tokens ++ t ∷ [];
      total_generated = (s.total_generated + 1) % 2 ^ 32;
      emitted = s.emitted ++ t ∷ [];
    } in
    let one : length (s.emitted ++ t ∷ []) ≡ length s.emitted + 1 =
      length-append s.emitted (t ∷ []) in
    let rest =
      emit-Reaches listening after ts all (omega (arith, one, b)) (omega (arith, one, h, b)) in
    rw (all ((s.total_generated + 1) % 2 ^ 32)) (rest.0, rest.1, omega (arith, rest.2, one))

module _ (next : List ℕ → ℕ) where
  length-greedy : (n : ℕ) (c : List ℕ) → length (greedy next n c) ≡ n
  length-greedy zero c = refl
  length-greedy (suc n) c = omega (arith, length-greedy n (c ++ next c ∷ []))

  checked-progress :
      (c : List ℕ) (t : ℕ) (ts : List ℕ)
      → ((checked next c (t ∷ ts)).accepted_count == 0
          && is_none (checked next c (t ∷ ts)).correction_token)
        ≡ false
  unfolding is_none
  checked-progress c t ts = elim (Bool-cases (t == next c)) [
    | inl e ↦ rw e (ground arith)
    | inr e ↦ rw e refl
  ]

  -- A round that goes on from t tokens, within the limit.
  abbrev Advances : ℕ → ℕ → Session × Option Status → Type 0
  Advances max_tokens t (s, none) =
      IsCounted s × (t < length s.emitted) × (length s.emitted ≤ max_tokens)
  Advances max_tokens t (s, some e) = ⊥

  settle-Advances :
      (max_tokens t m : ℕ) (v : VerificationResult) (r : Session × Bool)
      → (v.accepted_count == 0 && is_none v.correction_token) ≡ false
      → 1 ≤ m
      → t + m ≤ max_tokens
      → Reaches (t + m) r
      → Advances max_tokens t (settle v r)
  unfolding settle
  settle-Advances max_tokens t m v (s, false) go pos le h = absurd (ground (arith, h))
  settle-Advances max_tokens t m v (s, true) go pos le h =
      rw go (h.1, omega (arith, h.2, pos), omega (arith, h.2, le))

  module _ (net : Network) (sid : Uuid) (drafter : List ℕ → ℕ → List ℕ)
      (listens : (n : ℕ) → net.listening n ≡ true)
      (drafts : (c : List ℕ) (k : ℕ) → Drafts drafter c k)
      (draft_answers : (c : List ℕ) (k : ℕ)
        → after_send (net.draft_send c) (await_draft sid (net.draft_inbox c k))
          ≡ answered (drafter c k))
      (verify_answers : (c ts : List ℕ)
        → after_send (net.verify_send c ts) (await_verification sid (net.verify_inbox c ts))
          ≡ answered (checked next c ts)) where
    verify-Advances :
        (max_tokens : ℕ) (s : Session) (ts : List ℕ)
        → max_tokens < 2 ^ 32
        → IsCounted s
        → 1 ≤ length ts
        → length s.emitted + length ts ≤ max_tokens
        → Advances max_tokens (length s.emitted) (verify net sid s (answered ts))
    unfolding verify accept
    verify-Advances max_tokens s [] small counted pos le = absurd (omega (arith, pos))
    verify-Advances max_tokens s (t ∷ ts) small counted pos le =
        let c = s.context_tokens in
        let m = yield next c (t ∷ ts) in
        let bounds = yield-bounds next c t ts in
        let len = length-greedy m c in
        let emitted =
          emit-Reaches net.listening s (greedy next m c) listens
            (omega (arith, len, bounds.1, le, small)) counted in
        rw (verify_answers c (t ∷ ts), verified_tokens-greedy next c (t ∷ ts))
          (settle-Advances max_tokens (length s.emitted) m (checked next c (t ∷ ts)) _
            (checked-progress c t ts) bounds.0 (omega (arith, bounds.1, le))
            (subst (λ n. Reaches (length s.emitted + n) (emit net.listening s (greedy next m c)))
              len emitted))

    drafts_of :
        (c : List ℕ) (k : ℕ) → 1 ≤ k → (1 ≤ length (drafter c k)) × (length (drafter c k) ≤ k)
    drafts_of c zero pos = absurd (omega (arith, pos))
    drafts_of c (suc k) pos = drafts c k

    after_round-finishes :
        (max_tokens t : ℕ) (r : Session × Option Status) (rest : Session × Status)
        → Advances max_tokens t r
        → (Advances max_tokens t (r.0, none)
            → (rest.1 ≡ finished) × (length rest.0.emitted ≡ max_tokens))
        → ((after_round r rest).1 ≡ finished) × (length (after_round r rest).0.emitted ≡ max_tokens)
    unfolding after_round
    after_round-finishes max_tokens t (s, none) rest a k = k a
    after_round-finishes max_tokens t (s, some e) rest a k = absurd a

    stream_from-finishes :
        (config : SpeculativeConfig) (max_tokens n : ℕ) (s : Session)
        → 1 ≤ config.draft_length
        → max_tokens < 2 ^ 32
        → IsCounted s
        → length s.emitted ≤ max_tokens
        → max_tokens < length s.emitted + n
        → let r = stream_from net sid config max_tokens n s in
          (r.1 ≡ finished) × (length r.0.emitted ≡ max_tokens)
    unfolding stream_from round
    stream_from-finishes config max_tokens zero s some_draft small counted le fuel =
        absurd (omega (arith, fuel, le))
    stream_from-finishes config max_tokens (suc n) s some_draft small counted le fuel =
        let r = round net sid config max_tokens s in
        elim (Bool-cases (ltb s.total_generated max_tokens)) [
          | inr e ↦ rw e (refl, ground (arith, e, counted, le))
          | inl e ↦
              let lt : length s.emitted < max_tokens = ground (arith, e, counted) in
              let k = min config.draft_length (max_tokens - s.total_generated) in
              let asked : 1 ≤ k = omega (arith, lt, counted, some_draft) in
              let d = drafts_of s.context_tokens k asked in
              rw (e, draft_answers s.context_tokens k)
                (after_round-finishes max_tokens (length s.emitted)
                  (verify net sid s (answered (drafter s.context_tokens k))) _
                  (verify-Advances max_tokens s (drafter s.context_tokens k) small counted d.0
                    (omega (arith, d.1, lt, counted)))
                  (λ a.
                    stream_from-finishes config max_tokens n _ some_draft small a.0 a.2
                      (omega (arith, a.1, fuel))))
        ]

after_send-answered :
    {A : Type 0} (o : Option MeshError) (reply : Answer A) (v w : A)
    → after_send o reply ≡ answered v
    → reply ≡ answered w
    → w ≡ v
unfolding after_send
after_send-answered none reply v w h k = cc
after_send-answered (some e) reply v w h k = cc

-- If every request is answered, the drafter gives at least one token and no more than it is asked for,
-- the verifier's answers are the target model's check of the draft, and the receiver stays, then the
-- session ends because the limit is reached, and the emitted tokens are exactly the tokens that plain
-- decoding by the target model gives after the prompt, as many as were asked for.
pub stream_tokens-greedy :
    (next : List ℕ → ℕ) (net : Network) (sid : Uuid) (drafter : List ℕ → ℕ → List ℕ)
    (config : SpeculativeConfig) (prompt : List ℕ) (max_tokens : ℕ)
    → ((n : ℕ) → net.listening n ≡ true)
    → ((c : List ℕ) (k : ℕ) → Drafts drafter c k)
    → ((c : List ℕ) (k : ℕ)
        → after_send (net.draft_send c) (await_draft sid (net.draft_inbox c k))
          ≡ answered (drafter c k))
    → ((c ts : List ℕ)
        → after_send (net.verify_send c ts) (await_verification sid (net.verify_inbox c ts))
          ≡ answered (checked next c ts))
    → 1 ≤ config.draft_length
    → max_tokens < 2 ^ 32
    → let r = stream_tokens net sid config prompt max_tokens in
      (r.1 ≡ finished) × (r.0.emitted ≡ greedy next max_tokens prompt)
unfolding stream_tokens
stream_tokens-greedy next net sid drafter config prompt max_tokens listens drafts draft_answers
      verify_answers some_draft small =
    let done =
      stream_from-finishes next net sid drafter listens drafts draft_answers verify_answers config
        max_tokens (suc max_tokens) (fresh_session prompt) some_draft small refl (omega arith)
        (omega arith) in
    let same =
      stream_tokens-IsGreedy next net sid config prompt max_tokens
        (λ c ts v h. after_send-answered (net.verify_send c ts) _ _ v (verify_answers c ts) h) in
    (done.0, same ∙ ap (λ n. greedy next n prompt) done.1)
