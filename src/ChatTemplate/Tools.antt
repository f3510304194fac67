-- ===== src/ChatTemplate/Tools.antt =====
-- Where the description of the tools stands in a prompt: crates/hivebear-inference/src/chat_template.rs.
use hive_bear.Prelude.{
  ◌≡◌, refl, sym, ap, ◌∙◌, Bool, true, false, not, ◌&&◌, none, some, List, [], ◌∷◌, ◌++◌,
  Bool-cases, inl, inr, append_assoc, append-nil, arith,
}
use hive_bear.Prelude.Text.{Text, codes}
use hive_bear.ChatTemplate.{
  TemplateFormat, llama3, chat_ml, gemma, phi3, mistral, generic, ToolDefinition, ChatMessage,
  system, user, assistant, tool_result, tool_system_prompt, no_tools, is_system, has_system,
  render_each, added_system, llama3_header, llama3_message, chatml_block, chatml_message,
  gemma_block, phi3_block, gemma_message, phi3_message, generic_message, system_text, instruction,
  mistral_messages, render_llama3, render_chatml, render_gemma, render_phi3, render_mistral,
  render_generic, render, user_text, or_blank, lf,
}

-- The part stands somewhere in the whole.
abbrev pub Has : Text → Text → Type 0
Has part whole = (before : Text) × (after : Text) × (whole ≡ before ++ part ++ after)

Has-self : (p : Text) → Has p p
Has-self p = ([], [], sym (append-nil p))

Has-left : (p a b : Text) → Has p a → Has p (a ++ b)
Has-left p a b (x, y, e) = (x, y ++ b, ap (λ t. t ++ b) e ∙ append_assoc (x ++ p) y b)

Has-right : (p a b : Text) → Has p b → Has p (a ++ b)
Has-right p a b (x, y, e) = (
  a ++ x,
  y,
  ap (λ t. a ++ t) e
      ∙ sym (append_assoc a (x ++ p) y)
      ∙ ap (λ t. t ++ y) (sym (append_assoc a x p)),
)

-- A tail of the text: what stands in it stands in the whole.
Has-inside : (p a c : Text) → Has p (a ++ p ++ c)
Has-inside p a c = (a, c, refl)

render_each-Has :
    (p : Text) (f : ChatMessage → Text) (ms : List ChatMessage)
    → ((text : Text) → Has p (f (system text)))
    → has_system ms ≡ true
    → Has p (render_each f ms)
unfolding render_each has_system is_system
render_each-Has p f [] h e = absurd (ground (arith, e))
render_each-Has p f (system text ∷ ms) h e =
    Has-left p (f (system text)) (render_each f ms) (h text)
render_each-Has p f (user parts ∷ ms) h e =
    Has-right p (f (user parts)) (render_each f ms) (render_each-Has p f ms h e)
render_each-Has p f (assistant content ∷ ms) h e =
    Has-right p (f (assistant content)) (render_each f ms) (render_each-Has p f ms h e)
render_each-Has p f (tool_result content ∷ ms) h e =
    Has-right p (f (tool_result content)) (render_each f ms) (render_each-Has p f ms h e)

unfoldable pub has_user : List ChatMessage → Bool
has_user [] = false
has_user (system text ∷ ms) = has_user ms
has_user (user parts ∷ ms) = true
has_user (assistant content ∷ ms) = has_user ms
has_user (tool_result content ∷ ms) = has_user ms

-- Whether a format tells the model of the tools.
unfoldable pub tells : TemplateFormat → List ChatMessage → Bool
unfolding has_user
tells llama3 ms = true
tells chat_ml ms = true
tells gemma ms = has_system ms
tells phi3 ms = has_system ms
tells mistral ms = has_system ms && has_user ms
tells generic ms = has_system ms

module _ (p : Text) where
  llama3_message-Has : (text : Text) → Has p (llama3_message p (system text))
  unfolding llama3_message
  llama3_message-Has text =
      Has-inside p (llama3_header (codes "system") ++ text) (codes "<|eot_id|>")

  -- A block with a text between two others.
  framed-Has : (pre text post : Text) → Has p text → Has p (pre ++ text ++ post ++ lf)
  framed-Has pre text post h =
      Has-left p (pre ++ text ++ post) lf (Has-left p (pre ++ text) post (Has-right p pre text h))

  chatml_block-Has : (role text : Text) → Has p text → Has p (chatml_block role text)
  unfolding chatml_block
  chatml_block-Has role text h =
      framed-Has (codes "<|im_start|>" ++ role ++ lf) text (codes "<|im_end|>") h

  chatml_message-Has : (text : Text) → Has p (chatml_message p (system text))
  unfolding chatml_message
  chatml_message-Has text =
      chatml_block-Has (codes "system") (text ++ p) (Has-right p text p (Has-self p))

  gemma_message-Has : (text : Text) → Has p (gemma_message p (system text))
  unfolding gemma_message gemma_block
  gemma_message-Has text =
      framed-Has (codes "<start_of_turn>user" ++ lf) (codes "[System: " ++ text ++ p ++ codes "]")
        (codes "<end_of_turn>") (Has-inside p (codes "[System: " ++ text) (codes "]"))

  phi3_message-Has : (text : Text) → Has p (phi3_message p (system text))
  unfolding phi3_message phi3_block
  phi3_message-Has text =
      framed-Has (codes "<|system|>" ++ lf) (text ++ p) (codes "<|end|>")
        (Has-right p text p (Has-self p))

  generic_message-Has : (text : Text) → Has p (generic_message p (system text))
  unfolding generic_message
  generic_message-Has text = Has-inside p (codes "<|system|>" ++ lf ++ text) lf

  instruction-Has : (sys text : Text) → Has p sys → Has p (instruction (some sys) text)
  unfolding instruction
  instruction-Has sys text h =
      Has-left p (codes "[INST] " ++ sys ++ lf ++ lf ++ text) (codes " [/INST]") (
        Has-left p (codes "[INST] " ++ sys ++ lf ++ lf) text (
          Has-left p (codes "[INST] " ++ sys ++ lf) lf
            (Has-left p (codes "[INST] " ++ sys) lf (Has-right p (codes "[INST] ") sys h))))

  system_text-Has :
      (ms : List ChatMessage)
      → has_system ms ≡ true
      → (sys : Text) × (system_text p ms ≡ some sys) × Has p sys
  unfolding has_system is_system system_text
  system_text-Has [] e = absurd (ground (arith, e))
  system_text-Has (system text ∷ ms) e = (text ++ p, refl, Has-right p text p (Has-self p))
  system_text-Has (user parts ∷ ms) e = system_text-Has ms e
  system_text-Has (assistant content ∷ ms) e = system_text-Has ms e
  system_text-Has (tool_result content ∷ ms) e = system_text-Has ms e

  mistral_messages-Has :
      (sys : Text) (ms : List ChatMessage)
      → Has p sys
      → has_user ms ≡ true
      → Has p (mistral_messages (some sys) ms)
  unfolding has_user mistral_messages
  mistral_messages-Has sys [] h e = absurd (ground (arith, e))
  mistral_messages-Has sys (system text ∷ ms) h e = mistral_messages-Has sys ms h e
  mistral_messages-Has sys (user parts ∷ ms) h e =
      Has-left p (instruction (some sys) (user_text parts)) (mistral_messages none ms)
        (instruction-Has sys (user_text parts) h)
  mistral_messages-Has sys (assistant content ∷ ms) h e =
      Has-right p (codes " " ++ or_blank content ++ codes "</s>") (mistral_messages (some sys) ms)
        (mistral_messages-Has sys ms h e)
  mistral_messages-Has sys (tool_result content ∷ ms) h e =
      Has-right p (codes "[INST] [Tool result: " ++ content ++ codes "] [/INST]")
        (mistral_messages (some sys) ms) (mistral_messages-Has sys ms h e)

  -- What a format without an added system message gives.
  appended-Has :
      (f : ChatMessage → Text) (tail : Text) (ms : List ChatMessage)
      → ((text : Text) → Has p (f (system text)))
      → has_system ms ≡ true
      → Has p (render_each f ms ++ tail)
  appended-Has f tail ms h e = Has-left p (render_each f ms) tail (render_each-Has p f ms h e)

  -- What a format with an added system message gives, from the added block on.
  added-Has :
      (tools : List ToolDefinition) (ms : List ChatMessage) (f : ChatMessage → Text) (block : Text)
      → no_tools tools ≡ false
      → ((text : Text) → Has p (f (system text)))
      → Has p block
      → Has p (added_system (not (no_tools tools) && not (has_system ms)) block ++ render_each f ms)
  unfolding added_system
  added-Has tools ms f block some_tools h b = elim (Bool-cases (has_system ms)) [
    | inl e ↦
        rw (some_tools, e)
          (Has-right p (added_system (not false && not true) block) (render_each f ms)
            (render_each-Has p f ms h e))
    | inr e ↦
        rw (some_tools, e)
          (Has-left p (added_system (not false && not false) block) (render_each f ms) b)
  ]

-- The prompt of every format holds the description of the tools, where the format tells of them: in the
-- formats of Llama 3 and ChatML where there are tools, in those of Gemma, Phi-3 and the generic one where
-- a message is a system message, and in that of Mistral where one is and one is a user's.
pub render-Has :
    (format : TemplateFormat) (ms : List ChatMessage) (tools : List ToolDefinition)
    → no_tools tools ≡ false
    → tells format ms ≡ true
    → Has (tool_system_prompt tools) (render format ms tools)
unfolding render tells render_llama3 render_chatml render_gemma render_phi3 render_mistral
    render_generic
render-Has llama3 ms tools some_tools h =
    let p = tool_system_prompt tools in
    let block =
      llama3_header (codes "system")
      ++ codes "You are a helpful assistant."
      ++ p
      ++ codes "<|eot_id|>" in
    let added = added_system (not (no_tools tools) && not (has_system ms)) block in
    Has-right p (codes "<|begin_of_text|>")
      (added ++ render_each (llama3_message p) ms ++ llama3_header (codes "assistant"))
      (Has-left p (added ++ render_each (llama3_message p) ms) (llama3_header (codes "assistant")) (
        added-Has p tools ms (llama3_message p) block some_tools (llama3_message-Has p) (
          Has-inside p (llama3_header (codes "system") ++ codes "You are a helpful assistant.")
            (codes "<|eot_id|>"))))
render-Has chat_ml ms tools some_tools h =
    let p = tool_system_prompt tools in
    let block = chatml_block (codes "system") (codes "You are a helpful assistant." ++ p) in
    Has-left p
      (added_system (not (no_tools tools) && not (has_system ms)) block
        ++ render_each (chatml_message p) ms
        ++ codes "<|im_start|>assistant")
      lf
      (Has-left p
        (added_system (not (no_tools tools) && not (has_system ms)) block
          ++ render_each (chatml_message p) ms)
        (codes "<|im_start|>assistant")
        (added-Has p tools ms (chatml_message p) block some_tools (chatml_message-Has p) (
          chatml_block-Has p (codes "system") (codes "You are a helpful assistant." ++ p)
            (Has-right p (codes "You are a helpful assistant.") p (Has-self p)))))
render-Has gemma ms tools some_tools h =
    let p = tool_system_prompt tools in
    Has-left p (render_each (gemma_message p) ms ++ codes "<start_of_turn>model") lf
      (appended-Has p (gemma_message p) (codes "<start_of_turn>model") ms (gemma_message-Has p) h)
render-Has phi3 ms tools some_tools h =
    let p = tool_system_prompt tools in
    Has-left p (render_each (phi3_message p) ms ++ codes "<|assistant|>") lf
      (appended-Has p (phi3_message p) (codes "<|assistant|>") ms (phi3_message-Has p) h)
render-Has mistral ms tools some_tools h =
    let p = tool_system_prompt tools in
    let sys = system_text-Has p ms (ground (arith, h)) in
    rw sys.1 (
      Has-right p (codes "<s>") (mistral_messages (some sys.0) ms)
        (mistral_messages-Has p sys.0 ms sys.2 (ground (arith, h))))
render-Has generic ms tools some_tools h =
    let p = tool_system_prompt tools in
    Has-left p (render_each (generic_message p) ms ++ codes "<|assistant|>") lf
      (appended-Has p (generic_message p) (codes "<|assistant|>") ms (generic_message-Has p) h)
