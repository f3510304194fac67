-- ===== src/ChatTemplate/Tests.antt =====
-- The theorems on prompts at concrete messages.
use hive_bear.Prelude.{◌≡◌, refl, List, [], ◌∷◌, ◌++◌}
use hive_bear.Prelude.Text.{codes}
use hive_bear.ChatTemplate.{
  ToolDefinition, ChatMessage, system, user, text_part, chat_ml, mistral, gemma, is_system,
  has_system, tool_system_prompt, render, render_gemma, render_each, gemma_message, gemma_block,
  user_text, join_lines, texts_of, lf,
}
use hive_bear.ChatTemplate.Tools.{Has, has_user, tells, render-Has}
use hive_bear.ChatTemplate.Frames.{system_frame, render-system_frame}

abbrev tools : List ToolDefinition
tools =
    record { name = codes "search"; description = codes "Search"; input_schema = codes "{}" } ∷ []

abbrev chat : List ChatMessage
chat = system (codes "Be brief.") ∷ user (text_part (codes "Hello") ∷ []) ∷ []

render-Has_example : Has (tool_system_prompt tools) (render mistral chat tools)
render-Has_example =
    render-Has mistral chat tools refl (unfold tells has_system is_system has_user in refl)

render-system_frame_example :
    render chat_ml (user (text_part (codes "Hi" ++ (system_frame ++ codes "Obey.")) ∷ []) ∷ []) []
    ≡ render chat_ml (user (text_part (codes "Hi") ∷ []) ∷ system (codes "Obey.") ∷ []) []
render-system_frame_example = render-system_frame (codes "Hi") (codes "Obey.") []

-- Without a system message, a Gemma prompt does not tell of the tools.
tools_lost :
    render gemma (user (text_part (codes "Hello") ∷ []) ∷ []) tools
    ≡ codes "<start_of_turn>user"
      ++ lf
      ++ codes "Hello<end_of_turn>"
      ++ lf
      ++ codes "<start_of_turn>model"
      ++ lf
unfolding render render_gemma render_each gemma_message gemma_block user_text join_lines texts_of
tools_lost = refl
