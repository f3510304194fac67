-- ===== src/Swarm/Speculative/Tests.antt =====
-- The theorems on speculative decoding at a concrete network.
use hive_bear.Prelude.{
  ℕ, zero, suc, ◌≡◌, refl, true, none, some, List, [], ◌∷◌, arith, length, take,
}
use hive_bear.Swarm.Speculative.{
  SpeculativeConfig, other, draft_tokens, verify_draft, Network, finished, waiting, await_draft,
  await_verification, after_send, stream_tokens, stream_from, round, verify, accept, settle, emit,
  push, verified_tokens, correction, is_none, after_round,
}
use hive_bear.Swarm.Speculative.Greedy.{greedy, checked, IsGreedy, stream_tokens-IsGreedy}
use hive_bear.Swarm.Speculative.Complete.{Drafts, stream_tokens-greedy}

-- The target model counts the tokens of the context; the draft model is right about the first token.
abbrev target : List ℕ → ℕ
target c = length c

abbrev draft : List ℕ → ℕ → List ℕ
draft c k = take k (length c ∷ 0 ∷ [])

draft-Drafts : (c : List ℕ) (k : ℕ) → Drafts draft c k
draft-Drafts c zero = (omega arith, omega arith)
draft-Drafts c (suc zero) = (omega arith, omega arith)
draft-Drafts c (suc (suc k)) = (omega arith, omega arith)

abbrev config : SpeculativeConfig
config = record { enabled = true; draft_length = 5; draft_model = none }

abbrev net : Network
net = record {
  draft_send = λ c. none;
  draft_inbox = λ c k. other ∷ draft_tokens 8 [] ∷ draft_tokens 9 (draft c k) ∷ [];
  verify_send = λ c ts. none;
  verify_inbox = λ c ts. verify_draft 9 (checked target c ts) ∷ [];
  listening = λ n. true;
}

stream_tokens-greedy_example :
    let r = stream_tokens net 9 config (7 ∷ 7 ∷ []) 5 in
    (r.1 ≡ finished) × (r.0.emitted ≡ greedy target 5 (7 ∷ 7 ∷ []))
stream_tokens-greedy_example =
    stream_tokens-greedy target net 9 draft config (7 ∷ 7 ∷ []) 5 (λ n. refl) draft-Drafts
      (λ c k. unfold after_send await_draft in refl)
      (λ c ts. unfold after_send await_verification in refl) (omega arith) (omega arith)

stream_tokens-IsGreedy_example :
    IsGreedy target (7 ∷ 7 ∷ []) (stream_tokens net 9 config (7 ∷ 7 ∷ []) 5).0.emitted
stream_tokens-IsGreedy_example =
    stream_tokens-IsGreedy target net 9 config (7 ∷ 7 ∷ []) 5
      (λ c ts v h. unfold await_verification in cc)

-- A verifier that accepts a whole draft and adds a token of its own.
abbrev generous : Network
generous = record net {
  verify_inbox = λ c ts.
      verify_draft 9 (record { accepted_count = length ts; correction_token = some 4 }) ∷ [];
}

-- One token more than asked for is emitted.
over_the_limit : (stream_tokens generous 9 config (7 ∷ []) 2).0.emitted ≡ 1 ∷ 0 ∷ 4 ∷ []
unfolding stream_tokens stream_from round verify accept settle emit push verified_tokens correction
    is_none after_round after_send await_draft await_verification
over_the_limit = refl

-- A drafter that never answers: the call waits for ever.
silent_drafter :
    (stream_tokens (record net { draft_inbox = λ c k. [] }) 9 config (7 ∷ []) 2).1 ≡ waiting
unfolding stream_tokens stream_from round verify after_round after_send await_draft
silent_drafter = refl
