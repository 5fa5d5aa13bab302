-- ===== src/Conversation.antt =====
-- packages/agent-runtime/src/xymphony_runtime/conversation.py over the messages of
-- packages/contracts/src/xymphony_contracts/session.py and llm.py. Building an `LLMMessage` from a
-- text of more than 32,000 characters raises pydantic's ValidationError.
use xymphony_voice.Base.{
  ℕ, leb, Bool, true, false, Option, none, some, List, [], ◌∷◌, length, if◌then◌else◌,
}
use xymphony_voice.Base.Text.{Text, codes, is_empty, join}
use xymphony_voice.Base.Result.{ok, err, ◌>>=◌}
use xymphony_voice.Errors.{Raises, validation_error}
use xymphony_voice.Json.{ℤ, Json, Fields, end, field, get}

-- ContentPartType
pub data PartType : Type 0 where
  text audio_ref image file video : PartType

pub record ContentPart : Type 0 where
  pub type : PartType
  pub payload : Fields

pub data MessageRole : Type 0 where
  user assistant system tool : MessageRole

pub data MessageStatus : Type 0 where
  committed interrupted : MessageStatus

-- xymphony_contracts.session.Message
pub record Message : Type 0 where
  pub id : ℕ
  pub session_id : ℕ
  pub turn_id : ℕ
  pub organization_id : ℕ
  pub role : MessageRole
  pub status : MessageStatus
  pub parts : List ContentPart
  pub created_at : ℕ
  pub metadata : Fields

pub data LlmRole : Type 0 where
  system user assistant tool : LlmRole

-- LLMToolCall
pub record ToolCall : Type 0 where
  pub id : Text
  pub name : Text
  pub arguments : Text

pub record LlmMessage : Type 0 where
  pub role : LlmRole
  pub content : Text
  pub tool_call_id : Option Text
  pub tool_calls : List ToolCall

abbrev pub max_content : ℕ
max_content = 32000

-- The constructor `LLMMessage(role=…, content=…, tool_call_id=…, tool_calls=…)`.
unfoldable pub llm_message : LlmRole → Text → Option Text → List ToolCall → Raises LlmMessage
llm_message role content tool_call_id tool_calls =
    if leb (length content) max_content
    then ok (record {
      role = role;
      content = content;
      tool_call_id = tool_call_id;
      tool_calls = tool_calls;
    })
    else err validation_error

unfoldable pub text_content_part : Text → ContentPart
text_content_part t = record { type = text; payload = field (codes "text") (Json.str t) end }

-- `uuid4()` and the clock are arguments.
unfoldable pub build_text_message : ℕ → ℕ → ℕ → ℕ → ℕ → MessageRole → Text → Message
unfolding text_content_part
build_text_message id created_at session_id turn_id organization_id role t = record {
  id = id;
  session_id = session_id;
  turn_id = turn_id;
  organization_id = organization_id;
  role = role;
  status = committed;
  parts = text_content_part t ∷ [];
  created_at = created_at;
  metadata = end;
}

is_text : PartType → Bool
is_text text = true
is_text _ = false

-- `isinstance(text, str) and text`
str_of : Option Json → Option Text
str_of (some (Json.str s)) = if is_empty s then none else some s
str_of _ = none

unfoldable pub text_parts : List ContentPart → List Text
unfolding is_text str_of
text_parts [] = []
text_parts (part ∷ parts) =
    let rest = text_parts parts in
    if is_text part.type
    then elim (str_of (get part.payload (codes "text"))) [ some s ↦ s ∷ rest | none ↦ rest ]
    else rest

-- `None` if no part has text, else the parts joined.
unfoldable pub message_text : Message → Option Text
unfolding text_parts join
message_text message = elim (text_parts message.parts) [
  | [] ↦ none
  | s ∷ rest ↦ some (join [] (s ∷ rest))
]

-- `message_sequence(message)`, with no fallback: an `int` that is not a `bool`.
unfoldable pub message_sequence : Message → Option ℤ
message_sequence message = elim (get message.metadata (codes "sequence")) [
  | some (Json.int n) ↦ some n
  | _ ↦ none
]

-- `role_map.get(role)`
unfoldable pub role_map : MessageRole → Option LlmRole
role_map MessageRole.user = some LlmRole.user
role_map MessageRole.assistant = some LlmRole.assistant
role_map MessageRole.system = some LlmRole.system
role_map MessageRole.tool = none

unfoldable pub message_to_llm : Message → Raises (Option LlmMessage)
unfolding message_text role_map llm_message
message_to_llm message = elim (message_text message) [
  | none ↦ ok none
  | some t ↦ elim (role_map message.role) [
    | none ↦ ok none
    | some role ↦ llm_message role t none [] >>= λ m. ok (some m)
  ]
]

abbrev pub is_committed : MessageStatus → Bool
is_committed committed = true
is_committed interrupted = false

-- `if converted is not None: llm_messages.append(converted)`
unfoldable pub push : Option LlmMessage → List LlmMessage → List LlmMessage
push none ms = ms
push (some m) ms = m ∷ ms

unfoldable pub committed_messages_to_llm : List Message → Raises (List LlmMessage)
unfolding message_to_llm push
committed_messages_to_llm [] = ok []
committed_messages_to_llm (message ∷ messages) =
    let rest = committed_messages_to_llm messages in
    if is_committed message.status
    then (message_to_llm message >>= λ m. rest >>= λ ms. ok (push m ms))
    else rest
