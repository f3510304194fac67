-- ===== src/Cloud/Sse.antt =====
-- The stream of server-sent events: crates/hivebear-inference/src/engine/cloud/sse.rs. A text is the list
-- of its characters' code points. `parse_chunk`, which the caller gives, is a parameter: the token of a
-- payload, or none where it gives `Ok(None)` or an error, which the code treats alike.
pub mod Chunks
mod Tests
use hive_bear.Prelude.{
  ℕ, Bool, true, false, not, ◌&&◌, ◌||◌, Option, none, some, List, [], ◌∷◌, ◌++◌, leb, ◌==◌,
  if◌then◌else◌, is_yes,
}
use hive_bear.Prelude.Text.{Text, text_dec, codes}

-- `char::is_whitespace`.
unfoldable pub is_whitespace : ℕ → Bool
is_whitespace c =
    leb 9 c && leb c 13
    || c == 32
    || c == 133
    || c == 160
    || c == 5760
    || leb 8192 c && leb c 8202
    || c == 8232
    || c == 8233
    || c == 8239
    || c == 8287
    || c == 12288

-- A text without the characters at its end that pass the test.
unfoldable pub trim_end_by : (ℕ → Bool) → Text → Text
trim_end_by p [] = []
trim_end_by p (c ∷ s) = cons_unless_end (trim_end_by p s)
  where
    cons_unless_end : Text → Text
    cons_unless_end [] = if p c then [] else c ∷ []
    cons_unless_end (d ∷ t) = c ∷ d ∷ t

unfoldable pub trim_start : Text → Text
unfolding is_whitespace
trim_start [] = []
trim_start (c ∷ s) = if is_whitespace c then trim_start s else c ∷ s

unfoldable pub trim : Text → Text
unfolding trim_start trim_end_by is_whitespace
trim s = trim_end_by is_whitespace (trim_start s)

unfoldable pub strip_prefix : Text → Text → Option Text
strip_prefix [] s = some s
strip_prefix (p ∷ ps) [] = none
strip_prefix (p ∷ ps) (c ∷ s) = if p == c then strip_prefix ps s else none

abbrev pub is_empty : Text → Bool
is_empty [] = true
is_empty (c ∷ s) = false

abbrev pub is_some_text : Option Text → Bool
is_some_text none = false
is_some_text (some s) = true

-- `strip_prefix("data: ")`, else `strip_prefix("data:")`.
unfoldable pub or_else : Option Text → Option Text → Option Text
or_else none other = other
or_else (some s) other = some s

unfoldable pub data_of : Text → Option Text
unfolding strip_prefix or_else
data_of line = or_else (strip_prefix (codes "data: ") line) (strip_prefix (codes "data:") line)

-- The lines of the buffer that are complete, and what follows the last line feed: what the loop over
-- `buffer.find('\\n')` takes and leaves.
unfoldable pub push_char : ℕ → List Text × Text → List Text × Text
push_char c ([], tail) = if c == 10 then ([] ∷ [], tail) else ([], c ∷ tail)
push_char c (line ∷ lines, tail) =
    if c == 10 then ([] ∷ line ∷ lines, tail) else ((c ∷ line) ∷ lines, tail)

unfoldable pub split_lines : Text → List Text × Text
split_lines [] = ([], [])
split_lines (c ∷ s) = push_char c (split_lines s)

-- How the stream ends: at the sentinel, after the last chunk, or by a read error.
pub data End : Type 0 where
  done ended read_error : End

unfoldable pub matches_sentinel : Option Text → Text → Bool
matches_sentinel none payload = false
matches_sentinel (some sentinel) payload = is_yes (text_dec (trim payload) sentinel)

-- What remains in the buffer after the last chunk: its lines are trimmed on both sides.
unfoldable pub last_lines : Text → List Text
last_lines buffer =
    let (lines, rest) = split_lines buffer in if is_empty rest then lines else lines ++ rest ∷ []

module _ {Token : Type 0} where
  unfoldable pub token_list : Option Token → List Token
  token_list none = []
  token_list (some t) = t ∷ []

  unfoldable pub stop_or : List Token × Bool → List Token × Bool → List Token × Bool
  stop_or (tokens, true) rest = (tokens, true)
  stop_or (tokens, false) rest = (tokens ++ rest.0, rest.1)

  unfoldable pub handle_lines : (Text → List Token × Bool) → List Text → List Token × Bool
  handle_lines handle [] = ([], false)
  handle_lines handle (line ∷ lines) = stop_or (handle line) (handle_lines handle lines)

  unfoldable pub end_of : List Token × Bool → List Token × End
  end_of (tokens, true) = (tokens, done)
  end_of (tokens, false) = (tokens, ended)

  unfoldable pub go_on : List Token × Bool → List Token × End → List Token × End
  go_on (tokens, true) rest = (tokens, done)
  go_on (tokens, false) rest = (tokens ++ rest.0, rest.1)

module _ {Token : Type 0} (sentinel : Option Text) (parse_chunk : Text → Option Token) where
  -- A payload: its tokens, and whether it is the sentinel.
  unfoldable pub handle_data : Option Text → List Token × Bool
  unfolding matches_sentinel token_list
  handle_data none = ([], false)
  handle_data (some payload) =
      if matches_sentinel sentinel payload
      then ([], true)
      else if is_empty (trim payload)
      then ([], false)
      else (token_list (parse_chunk payload), false)

  -- One line, without the carriage returns at its end.
  unfoldable pub handle_line : Text → List Token × Bool
  handle_line raw =
      let line = trim_end_by (λ c. c == 13) raw in
      if is_empty line
      then ([], false)
      else if is_some_text (strip_prefix (codes ":") line)
      then ([], false)
      else if is_some_text (strip_prefix (codes "event:") line)
      then ([], false)
      else handle_data (data_of line)

  unfoldable pub finish : Text → List Token × End
  finish buffer =
      if is_empty (trim buffer)
      then ([], ended)
      else end_of (handle_lines (λ line. handle_data (data_of (trim line))) (last_lines buffer))

  -- The loop over the chunks, from a buffer: the tokens that are yielded, and the end.
  unfoldable pub stream_from : List (Option Text) → Text → List Token × End
  stream_from [] buffer = finish buffer
  stream_from (none ∷ chunks) buffer = ([], read_error)
  stream_from (some chunk ∷ chunks) buffer =
      let (lines, rest) = split_lines (buffer ++ chunk) in
      go_on (handle_lines handle_line lines) (stream_from chunks rest)

  unfoldable pub stream_sse : List (Option Text) → List Token × End
  unfolding stream_from
  stream_sse chunks = stream_from chunks []
