-- ===== src/Cloud/Sse/Chunks.antt =====
-- How the stream is cut into chunks: crates/hivebear-inference/src/engine/cloud/sse.rs.
use hive_bear.Prelude.{
  ℕ, ◌≡◌, refl, sym, ap, ◌∙◌, Bool, true, false, Option, some, List, [], ◌∷◌, ◌++◌, map, ◌==◌,
  Bool-cases, inl, inr, append_assoc, append-nil,
}
use hive_bear.Prelude.Text.{Text}
use hive_bear.Cloud.Sse.{
  push_char, split_lines, End, handle_line, handle_lines, stop_or, finish, go_on, stream_from,
  stream_sse,
}

-- What splitting gives where more text follows.
abbrev split_more : List Text × Text → Text → List Text × Text
split_more (lines, rest) more =
    (lines ++ (split_lines (rest ++ more)).0, (split_lines (rest ++ more)).1)

push_char-line_feed :
    (c : ℕ) (r : List Text × Text) → (c == 10) ≡ true → push_char c r ≡ ([] ∷ r.0, r.1)
unfolding push_char
push_char-line_feed c ([], rest) e = rw e refl
push_char-line_feed c (line ∷ lines, rest) e = rw e refl

push_char-split_more :
    (c : ℕ) (r : List Text × Text) (more : Text)
    → push_char c (split_more r more) ≡ split_more (push_char c r) more
unfolding push_char split_lines
push_char-split_more c ([], rest) more = elim (Bool-cases (c == 10)) [
  | inl e ↦ push_char-line_feed c (split_lines (rest ++ more)) e ∙ rw e refl
  | inr e ↦ rw e refl
]
push_char-split_more c (line ∷ lines, rest) more = elim (Bool-cases (c == 10)) [
  | inl e ↦ rw e refl
  | inr e ↦ rw e refl
]

split_lines-append : (x y : Text) → split_lines (x ++ y) ≡ split_more (split_lines x) y
unfolding split_lines
split_lines-append [] y = refl
split_lines-append (c ∷ x) y =
    ap (push_char c) (split_lines-append x y) ∙ push_char-split_more c (split_lines x) y

-- A text without a line feed is no line.
abbrev HasNoLine : Text → Type 0
HasNoLine s = split_lines s ≡ ([], s)

push_char-rest : (c : ℕ) (r : List Text × Text) → HasNoLine r.1 → HasNoLine (push_char c r).1
unfolding push_char split_lines
push_char-rest c ([], rest) h = elim (Bool-cases (c == 10)) [
  | inl e ↦ rw e h
  | inr e ↦ rw (e, h, e) refl
]
push_char-rest c (line ∷ lines, rest) h = elim (Bool-cases (c == 10)) [
  | inl e ↦ rw e h
  | inr e ↦ rw e h
]

split_lines-rest : (s : Text) → HasNoLine (split_lines s).1
unfolding split_lines
split_lines-rest [] = refl
split_lines-rest (c ∷ s) = push_char-rest c (split_lines s) (split_lines-rest s)

abbrev pub concat : List Text → Text
concat [] = []
concat (s ∷ ss) = s ++ concat ss

module _ {Token : Type 0} where
  stop_or-handle_lines :
      (handle : Text → List Token × Bool) (ls ms : List Text)
      → handle_lines handle (ls ++ ms) ≡ stop_or (handle_lines handle ls) (handle_lines handle ms)
  unfolding handle_lines stop_or
  stop_or-handle_lines handle [] ms = refl
  stop_or-handle_lines handle (l ∷ ls) ms =
      ap (stop_or (handle l)) (stop_or-handle_lines handle ls ms)
      ∙ assoc (handle l) (handle_lines handle ls) (handle_lines handle ms)
    where
      assoc : (a b c : List Token × Bool) → stop_or a (stop_or b c) ≡ stop_or (stop_or a b) c
      assoc (x, true) b c = refl
      assoc (x, false) (y, true) c = refl
      assoc (x, false) (y, false) (z, w) =
          ap (λ (l : List Token). (l, w)) (sym (append_assoc x y z))

  go_on-stop_or :
      (a b : List Token × Bool) (r : List Token × End) → go_on (stop_or a b) r ≡ go_on a (go_on b r)
  unfolding go_on stop_or
  go_on-stop_or (x, true) b r = refl
  go_on-stop_or (x, false) (y, true) r = refl
  go_on-stop_or (x, false) (y, false) (z, e) = ap (λ (l : List Token). (l, e)) (append_assoc x y z)

  module _ (sentinel : Option Text) (parse_chunk : Text → Option Token) where
    -- A chunk and the text that follows it, from what holds of the latter.
    stream_from-cons :
        (c : Text) (chunks : List Text) (buffer : Text)
        → stream_from sentinel parse_chunk (map some chunks) (split_lines (buffer ++ c)).1
          ≡ stream_from sentinel parse_chunk
              (some (concat chunks) ∷ [])
              (split_lines (buffer ++ c)).1
        → stream_from sentinel parse_chunk (map some (c ∷ chunks)) buffer
          ≡ stream_from sentinel parse_chunk (some (concat (c ∷ chunks)) ∷ []) buffer
    unfolding stream_from
    stream_from-cons c chunks buffer h =
        ap (go_on (handle_lines handle first.0)) h
        ∙ sym (go_on-stop_or (handle_lines handle first.0) (handle_lines handle more.0) (end more))
        ∙ ap (λ q. go_on q (end more)) (sym (stop_or-handle_lines handle first.0 more.0))
        ∙ ap whole (sym (split_lines-append (buffer ++ c) (concat chunks)))
        ∙ ap (λ t. whole (split_lines t)) (append_assoc buffer c (concat chunks))
      where
        handle : Text → List Token × Bool
        handle = handle_line sentinel parse_chunk

        first : List Text × Text
        first = split_lines (buffer ++ c)

        more : List Text × Text
        more = split_lines (first.1 ++ concat chunks)

        end : List Text × Text → List Token × End
        end r = finish sentinel parse_chunk r.1

        whole : List Text × Text → List Token × End
        whole r = go_on (handle_lines handle r.0) (end r)

    stream_from-concat :
        (chunks : List Text) (buffer : Text)
        → HasNoLine buffer
        → stream_from sentinel parse_chunk (map some chunks) buffer
          ≡ stream_from sentinel parse_chunk (some (concat chunks) ∷ []) buffer
    unfolding stream_from handle_lines go_on
    stream_from-concat [] buffer h = rw (append-nil buffer, h) refl
    stream_from-concat (c ∷ chunks) buffer h =
        stream_from-cons c chunks buffer
          (stream_from-concat chunks (split_lines (buffer ++ c)).1 (split_lines-rest (buffer ++ c)))

  -- What is yielded and how the stream ends depends only on the text that the chunks make together, not
  -- on where it is cut into chunks.
  pub stream_sse-concat :
      (sentinel : Option Text) (parse_chunk : Text → Option Token) (chunks : List Text)
      → stream_sse sentinel parse_chunk (map some chunks)
        ≡ stream_sse sentinel parse_chunk (some (concat chunks) ∷ [])
  unfolding stream_sse
  stream_sse-concat sentinel parse_chunk chunks =
      stream_from-concat sentinel parse_chunk chunks [] (unfold split_lines in refl)
