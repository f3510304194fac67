-- ===== src/Cloud/Sse/Tests.antt =====
-- The theorems on server-sent events at a concrete stream.
use hive_bear.Prelude.{◌≡◌, refl, some, List, [], ◌∷◌, ◌++◌, map, ℕ_discrete}
use hive_bear.Prelude.Text.{Text, text_dec, codes}
use hive_bear.Cloud.Sse.{
  done, stream_sse, stream_from, split_lines, push_char, handle_lines, handle_line, handle_data,
  data_of, strip_prefix, or_else, trim, trim_end_by, trim_start, is_whitespace, matches_sentinel,
  token_list, stop_or, go_on,
}
use hive_bear.Cloud.Sse.Chunks.{concat, stream_sse-concat}

-- An event that is cut inside its payload, and the sentinel.
abbrev chunks : List Text
chunks =
    codes "event: x"
    ∷ (10 ∷ codes "data: he")
    ∷ (codes "llo" ++ 10 ∷ 10 ∷ codes "data: [DONE]")
    ∷ (10 ∷ [])
    ∷ []

stream_sse-concat_example :
    stream_sse (some (codes "[DONE]")) (λ payload. some payload) (map some chunks)
    ≡ stream_sse (some (codes "[DONE]")) (λ payload. some payload) (some (concat chunks) ∷ [])
stream_sse-concat_example =
    stream_sse-concat (some (codes "[DONE]")) (λ payload. some payload) chunks

-- One token, and the end at the sentinel.
cut_payload :
    stream_sse (some (codes "[DONE]")) (λ payload. some payload) (map some chunks)
    ≡ (codes "hello" ∷ [], done)
unfolding stream_sse stream_from split_lines push_char handle_lines handle_line handle_data data_of
    strip_prefix or_else trim trim_end_by trim_start is_whitespace matches_sentinel token_list
    stop_or go_on text_dec ℕ_discrete
cut_payload = refl
