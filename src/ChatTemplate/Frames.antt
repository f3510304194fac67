-- ===== src/ChatTemplate/Frames.antt =====
-- The frames of messages in a ChatML prompt: crates/hivebear-inference/src/chat_template.rs.
use hive_bear.Prelude.{◌≡◌, List, [], ◌∷◌, ◌++◌, append_assoc, append-nil}
use hive_bear.Prelude.Text.{Text, codes}
use hive_bear.ChatTemplate.{
  ChatMessage, system, user, text_part, chat_ml, tool_system_prompt, user_text, join_lines,
  texts_of, lf, added_system, render_each, chatml_block, chatml_message, render_chatml, render,
}

-- The end of a message and the start of a system message.
abbrev pub system_frame : Text
system_frame = codes "<|im_end|>" ++ lf ++ codes "<|im_start|>system" ++ lf

-- The text of a message is not escaped: in a ChatML prompt without tools, a user's message that holds
-- the end of a message and the start of a system message gives the same prompt as the message of the
-- user up to there, followed by a system message.
pub render-system_frame :
    (a b : Text) (ms : List ChatMessage)
    → render chat_ml (user (text_part (a ++ (system_frame ++ b)) ∷ []) ∷ ms) []
      ≡ render chat_ml (user (text_part a ∷ []) ∷ system b ∷ ms) []
unfolding render render_chatml render_each chatml_message chatml_block user_text join_lines texts_of
    tool_system_prompt added_system
render-system_frame a b ms = simp (append_assoc, append-nil)
