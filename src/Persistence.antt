-- ===== src/Persistence.antt =====
-- The in-memory conversation and summary repositories of
-- packages/agent-runtime/src/xymphony_runtime/persistence/memory.py.
pub mod History
pub mod Replay
use xymphony_voice.Base.{
  ℕ, ◌+◌, ◌==◌, Bool, true, Option, none, some, List, [], ◌∷◌, ◌++◌, length, if◌then◌else◌,
}
use xymphony_voice.Base.Text.{codes}
use xymphony_voice.Base.Dict.{Dict, get, put}
use xymphony_voice.Json.{Json, pos, with_key}
use xymphony_voice.Conversation.{Message}
use xymphony_voice.Summary.{ConversationSummary}

-- `messages_by_session`
abbrev pub Buckets : Type 0
Buckets = Dict (List Message)

-- `messages_by_session.get(session_id, ())`
unfoldable pub bucket : Buckets → ℕ → List Message
unfolding get
bucket messages session_id = elim (get messages session_id) [ none ↦ [] | some ms ↦ ms ]

-- `message.model_copy(update={"metadata": {**dict(message.metadata), "sequence": sequence}})`
unfoldable pub numbered : ℕ → Message → Message
numbered sequence message = record message {
  metadata = with_key message.metadata (codes "sequence") (Json.int (pos sequence));
}

-- InMemoryConversationRepository.next_sequence
unfoldable pub next_sequence : Buckets → ℕ → ℕ
unfolding bucket
next_sequence messages session_id = length (bucket messages session_id) + 1

-- InMemoryConversationRepository.append_message: the store that is left. The message stored is the
-- last of its bucket.
unfoldable pub append_message : Message → Buckets → Buckets
unfolding bucket numbered put
append_message message messages =
    let old = bucket messages message.session_id in
    put messages message.session_id (old ++ numbered (length old + 1) message ∷ [])

-- `[m for m in messages if m.organization_id == organization_id]`
unfoldable pub of_organization : ℕ → List Message → List Message
of_organization organization_id [] = []
of_organization organization_id (m ∷ ms) =
    let rest = of_organization organization_id ms in
    if m.organization_id == organization_id then m ∷ rest else rest

-- InMemoryConversationRepository.list_messages
unfoldable pub list_messages : Buckets → ℕ → Option ℕ → List Message
unfolding bucket of_organization
list_messages messages session_id none = bucket messages session_id
list_messages messages session_id (some organization_id) =
    of_organization organization_id (bucket messages session_id)

-- InMemoryConversationSummaryRepository.get_latest
unfoldable pub get_latest : Dict ConversationSummary → ℕ → Option ℕ → Option ConversationSummary
unfolding get
get_latest summaries session_id none = get summaries session_id
get_latest summaries session_id (some organization_id) = elim (get summaries session_id) [
  | none ↦ none
  | some summary ↦ if summary.organization_id == organization_id then some summary else none
]

-- InMemoryConversationSummaryRepository.upsert
unfoldable pub upsert : ConversationSummary → Dict ConversationSummary → Dict ConversationSummary
unfolding put
upsert summary summaries = put summaries summary.session_id summary
