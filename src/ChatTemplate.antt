-- ===== src/ChatTemplate.antt =====
-- Prompts from chat messages: crates/hivebear-inference/src/chat_template.rs. A schema of a tool is its
-- printed JSON. The tool calls of an assistant's message and the id of a tool's result are not read and
-- left out; of a user's message the texts of its parts are kept.
pub mod Tools
pub mod Frames
mod Tests
use hive_bear.Prelude.{
  ℕ, Bool, true, false, not, ◌&&◌, ◌||◌, Option, none, some, List, [], ◌∷◌, ◌++◌, if◌then◌else◌,
}
use hive_bear.Prelude.Text.{Text, codes, contains, to_lowercase}

pub data TemplateFormat : Type 0 where
  llama3 chat_ml gemma phi3 mistral generic : TemplateFormat

pub record ToolDefinition : Type 0 where
  pub name : Text
  pub description : Text
  pub input_schema : Text

pub data ContentPart : Type 0 where
  text_part : Text → ContentPart
  other_part : ContentPart

pub data ChatMessage : Type 0 where
  system : Text → ChatMessage
  user : List ContentPart → ChatMessage
  assistant : Option Text → ChatMessage
  tool_result : Text → ChatMessage

unfoldable any_of : Text → List Text → Bool
any_of name [] = false
any_of name (part ∷ parts) = contains part name || any_of name parts

-- By the first family that the name mentions; ChatML is also the default.
unfoldable pub detect_template : Text → TemplateFormat
unfolding any_of
detect_template model_name =
    let name = to_lowercase model_name in
    if any_of name (codes "llama-3" ∷ codes "llama3" ∷ codes "llama-4" ∷ [])
    then llama3
    else if contains (codes "gemma") name
    then gemma
    else if any_of name (codes "phi-3" ∷ codes "phi3" ∷ codes "phi-4" ∷ codes "phi4" ∷ [])
    then phi3
    else if any_of name (codes "mistral" ∷ codes "mixtral" ∷ [])
    then mistral
    else chat_ml

abbrev pub lf : Text
lf = 10 ∷ []

-- `join("\n")`.
unfoldable pub join_lines : List Text → Text
join_lines [] = []
join_lines (s ∷ []) = s
join_lines (s ∷ t ∷ rest) = s ++ lf ++ join_lines (t ∷ rest)

unfoldable pub texts_of : List ContentPart → List Text
texts_of [] = []
texts_of (text_part t ∷ parts) = t ∷ texts_of parts
texts_of (other_part ∷ parts) = texts_of parts

-- `user_text_content().unwrap_or_default()`.
unfoldable pub user_text : List ContentPart → Text
unfolding join_lines texts_of
user_text parts = join_lines (texts_of parts)

unfoldable pub or_blank : Option Text → Text
or_blank none = []
or_blank (some s) = s

unfoldable describe : List ToolDefinition → List Text
describe [] = []
describe (t ∷ ts) =
    (codes "- "
      ++ t.name
      ++ codes ": "
      ++ t.description
      ++ codes " (params: "
      ++ t.input_schema
      ++ codes ")")
    ∷ describe ts

unfoldable pub tool_system_prompt : List ToolDefinition → Text
unfolding describe join_lines
tool_system_prompt [] = []
tool_system_prompt (t ∷ ts) =
    lf
    ++ lf
    ++ codes "You have access to the following tools:"
    ++ lf
    ++ join_lines (describe (t ∷ ts))
    ++ lf
    ++ codes
        "To use a tool, respond with a JSON object: {\"tool\": \"<name>\", \"arguments\": {...}}"

abbrev pub no_tools : List ToolDefinition → Bool
no_tools [] = true
no_tools (t ∷ ts) = false

unfoldable pub is_system : ChatMessage → Bool
is_system (system text) = true
is_system (user parts) = false
is_system (assistant content) = false
is_system (tool_result content) = false

-- `messages.iter().any(|m| matches!(m, System(_)))`.
unfoldable pub has_system : List ChatMessage → Bool
has_system [] = false
has_system (m ∷ ms) = is_system m || has_system ms

-- The messages one after another.
unfoldable pub render_each : (ChatMessage → Text) → List ChatMessage → Text
render_each f [] = []
render_each f (m ∷ ms) = f m ++ render_each f ms

unfoldable pub llama3_header : Text → Text
llama3_header role = codes "<|start_header_id|>" ++ role ++ codes "<|end_header_id|>" ++ lf ++ lf

unfoldable pub llama3_message : Text → ChatMessage → Text
llama3_message tools (system text) =
    llama3_header (codes "system") ++ text ++ tools ++ codes "<|eot_id|>"
llama3_message tools (user parts) =
    llama3_header (codes "user") ++ user_text parts ++ codes "<|eot_id|>"
llama3_message tools (assistant content) =
    llama3_header (codes "assistant") ++ or_blank content ++ codes "<|eot_id|>"
llama3_message tools (tool_result content) =
    llama3_header (codes "tool") ++ content ++ codes "<|eot_id|>"

-- The system message that is added where tools are given and no message is one.
unfoldable pub added_system : Bool → Text → Text
added_system true block = block
added_system false block = []

unfoldable pub render_llama3 : List ChatMessage → List ToolDefinition → Text
render_llama3 messages tools =
    let tool_prompt = tool_system_prompt tools in
    codes "<|begin_of_text|>"
    ++ added_system (not (no_tools tools) && not (has_system messages)) (
        llama3_header (codes "system")
        ++ codes "You are a helpful assistant."
        ++ tool_prompt
        ++ codes "<|eot_id|>")
    ++ render_each (llama3_message tool_prompt) messages
    ++ llama3_header (codes "assistant")

unfoldable pub chatml_block : Text → Text → Text
chatml_block role text = codes "<|im_start|>" ++ role ++ lf ++ text ++ codes "<|im_end|>" ++ lf

unfoldable pub chatml_message : Text → ChatMessage → Text
chatml_message tools (system text) = chatml_block (codes "system") (text ++ tools)
chatml_message tools (user parts) = chatml_block (codes "user") (user_text parts)
chatml_message tools (assistant content) = chatml_block (codes "assistant") (or_blank content)
chatml_message tools (tool_result content) = chatml_block (codes "tool") content

unfoldable pub render_chatml : List ChatMessage → List ToolDefinition → Text
render_chatml messages tools =
    let tool_prompt = tool_system_prompt tools in
    added_system (not (no_tools tools) && not (has_system messages))
      (chatml_block (codes "system") (codes "You are a helpful assistant." ++ tool_prompt))
    ++ render_each (chatml_message tool_prompt) messages
    ++ codes "<|im_start|>assistant"
    ++ lf

unfoldable pub gemma_block : Text → Text → Text
gemma_block role text = codes "<start_of_turn>" ++ role ++ lf ++ text ++ codes "<end_of_turn>" ++ lf

unfoldable pub gemma_message : Text → ChatMessage → Text
unfolding gemma_block
gemma_message tools (system text) =
    gemma_block (codes "user") (codes "[System: " ++ text ++ tools ++ codes "]")
gemma_message tools (user parts) = gemma_block (codes "user") (user_text parts)
gemma_message tools (assistant content) = gemma_block (codes "model") (or_blank content)
gemma_message tools (tool_result content) =
    gemma_block (codes "user") (codes "[Tool result: " ++ content ++ codes "]")

unfoldable pub render_gemma : List ChatMessage → List ToolDefinition → Text
render_gemma messages tools =
    render_each (gemma_message (tool_system_prompt tools)) messages
    ++ codes "<start_of_turn>model"
    ++ lf

unfoldable pub phi3_block : Text → Text → Text
phi3_block role text = role ++ lf ++ text ++ codes "<|end|>" ++ lf

unfoldable pub phi3_message : Text → ChatMessage → Text
unfolding phi3_block
phi3_message tools (system text) = phi3_block (codes "<|system|>") (text ++ tools)
phi3_message tools (user parts) = phi3_block (codes "<|user|>") (user_text parts)
phi3_message tools (assistant content) = phi3_block (codes "<|assistant|>") (or_blank content)
phi3_message tools (tool_result content) =
    phi3_block (codes "<|user|>") (codes "[Tool result: " ++ content ++ codes "]")

unfoldable pub render_phi3 : List ChatMessage → List ToolDefinition → Text
render_phi3 messages tools =
    render_each (phi3_message (tool_system_prompt tools)) messages ++ codes "<|assistant|>" ++ lf

-- The text of the first system message, with the tools.
unfoldable pub system_text : Text → List ChatMessage → Option Text
system_text tools [] = none
system_text tools (system text ∷ ms) = some (text ++ tools)
system_text tools (user parts ∷ ms) = system_text tools ms
system_text tools (assistant content ∷ ms) = system_text tools ms
system_text tools (tool_result content ∷ ms) = system_text tools ms

-- `[INST] ... [/INST]`, after the system text where there is one.
unfoldable pub instruction : Option Text → Text → Text
instruction none text = codes "[INST] " ++ text ++ codes " [/INST]"
instruction (some sys) text = codes "[INST] " ++ sys ++ lf ++ lf ++ text ++ codes " [/INST]"

-- The messages; the first one of a user, and no other, carries the system text.
unfoldable pub mistral_messages : Option Text → List ChatMessage → Text
mistral_messages sys [] = []
mistral_messages sys (system text ∷ ms) = mistral_messages sys ms
mistral_messages sys (user parts ∷ ms) =
    instruction sys (user_text parts) ++ mistral_messages none ms
mistral_messages sys (assistant content ∷ ms) =
    codes " " ++ or_blank content ++ codes "</s>" ++ mistral_messages sys ms
mistral_messages sys (tool_result content ∷ ms) =
    codes "[INST] [Tool result: " ++ content ++ codes "] [/INST]" ++ mistral_messages sys ms

unfoldable pub render_mistral : List ChatMessage → List ToolDefinition → Text
render_mistral messages tools =
    codes "<s>" ++ mistral_messages (system_text (tool_system_prompt tools) messages) messages

unfoldable pub generic_message : Text → ChatMessage → Text
generic_message tools (system text) = codes "<|system|>" ++ lf ++ text ++ tools ++ lf
generic_message tools (user parts) = codes "<|user|>" ++ lf ++ user_text parts ++ lf
generic_message tools (assistant content) = codes "<|assistant|>" ++ lf ++ or_blank content ++ lf
generic_message tools (tool_result content) = codes "<|tool|>" ++ lf ++ content ++ lf

unfoldable pub render_generic : List ChatMessage → List ToolDefinition → Text
render_generic messages tools =
    render_each (generic_message (tool_system_prompt tools)) messages ++ codes "<|assistant|>" ++ lf

unfoldable pub render : TemplateFormat → List ChatMessage → List ToolDefinition → Text
render llama3 messages tools = render_llama3 messages tools
render chat_ml messages tools = render_chatml messages tools
render gemma messages tools = render_gemma messages tools
render phi3 messages tools = render_phi3 messages tools
render mistral messages tools = render_mistral messages tools
render generic messages tools = render_generic messages tools
