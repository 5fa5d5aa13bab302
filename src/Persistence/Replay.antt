-- ===== src/Persistence/Replay.antt =====
-- What the model is sent of the messages that persistence/memory.py stores: the way of a text from
-- build_text_message of packages/agent-runtime/src/xymphony_runtime/conversation.py through
-- append_message and list_messages to committed_messages_to_llm.
use xymphony_voice.Base.{ℕ, ◌≤◌, ◌≡◌, false, none, List, [], ◌∷◌, length}
use xymphony_voice.Base.Text.{Text, is_empty}
use xymphony_voice.Conversation.{Message, MessageRole, LlmMessage, LlmRole, build_text_message}
use xymphony_voice.Persistence.{Buckets, append_message}

-- Who speaks in a conversation, as a role of a stored message and as one of a model's message.
pub data Speaker : Type 0 where
  person agent instructor : Speaker

abbrev pub stored_role : Speaker → MessageRole
stored_role person = MessageRole.user
stored_role agent = MessageRole.assistant
stored_role instructor = MessageRole.system

abbrev pub sent_role : Speaker → LlmRole
sent_role person = LlmRole.user
sent_role agent = LlmRole.assistant
sent_role instructor = LlmRole.system

-- A text that is stored, with the identifiers and the time of its message.
pub record Utterance : Type 0 where
  pub id : ℕ
  pub created_at : ℕ
  pub turn_id : ℕ
  pub speaker : Speaker
  pub text : Text

-- The text is not empty and within LLMMessage's limit.
pub record IsSayable (u : Utterance) : Type 0 where
  pub filled : is_empty u.text ≡ false
  pub short : length u.text ≤ 32000

abbrev pub message_of : ℕ → ℕ → Utterance → Message
message_of session organization u =
    build_text_message u.id u.created_at session u.turn_id organization (stored_role u.speaker)
      u.text

unfoldable pub store_all : ℕ → ℕ → List Utterance → Buckets → Buckets
store_all session organization [] messages = messages
store_all session organization (u ∷ us) messages =
    store_all session organization us (append_message (message_of session organization u) messages)

abbrev pub sent : Utterance → LlmMessage
sent u = record {
  role = sent_role u.speaker;
  content = u.text;
  tool_call_id = none;
  tool_calls = [];
}
