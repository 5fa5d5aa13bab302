-- ===== src/Runtime/Tasks.antt =====
-- What the tasks of AgentRuntime in runtime.py do to the state between two awaits: they register and
-- release cancellation tokens, fail a turn after an error, and store an exchange.
use xymphony_voice.Base.{
  add, ◌++◌, ◌∷◌, ℕ, Bool, Option, none, some, List, [], if◌then◌else◌, discard,
}
use xymphony_voice.Base.Text.{Text}
use xymphony_voice.Base.Dict.{get, put, remove}
use xymphony_voice.Base.Result.{ok, err}
use xymphony_voice.Errors.{crash}
use xymphony_voice.Conversation.{Message, MessageRole, build_text_message}
use xymphony_voice.Summary.{ConversationSummary}
use xymphony_voice.Persistence.{append_message, list_messages, get_latest, upsert}
use xymphony_voice.Runtime.State.{
  AudioFrame, State, M, ◌>>=◌, ◌>>◌, pure, gets, modify, is_turn_cancelled, fresh_uuid,
}
use xymphony_voice.Runtime.Dispatch.{error_event}
use xymphony_voice.Runtime.Turns.{admit, clear_current, fail_turn_object}

-- `turn.fail(error_code=code)`, `self.admit_event(error_event(…))` and the clearing of the current
-- turn, which every `except` of the tasks and the tool loop's limit run.
unfoldable pub fail_turn : ℕ → Text → Text → Bool → M (Unit {0})
fail_turn turn_id code message retryable s = elim (get s.turns turn_id) [
  | none ↦ (err crash, s)
  | some turn ↦
      (do
        fail_turn_object code turn
        admit (error_event code message (some turn.id) retryable)
        modify (clear_current turn.id))
        s
]

-- The new token of `_run_assistant_pipeline`, which both dictionaries hold.
unfoldable pub register_tokens : ℕ → M ℕ
unfolding fresh_uuid put
register_tokens turn_id = do
  token ← fresh_uuid
  modify (λ s. record s {
    llm_cancel_tokens = put s.llm_cancel_tokens turn_id token;
    tts_cancel_tokens = put s.tts_cancel_tokens turn_id token;
  })
  pure token

-- The `finally` of `_run_assistant_pipeline`.
unfoldable pub release_tokens : ℕ → State → State
unfolding remove
release_tokens turn_id s = record s {
  llm_cancel_tokens = remove s.llm_cancel_tokens turn_id;
  tts_cancel_tokens = remove s.tts_cancel_tokens turn_id;
}

-- The queue and the token of `_handle_user_speech_started`, and the task that listens.
unfoldable pub register_speech : ℕ → M ℕ
unfolding fresh_uuid put
register_speech turn_id = do
  token ← fresh_uuid
  task ← fresh_uuid
  modify (λ s. record s {
    stt_audio_queues = put s.stt_audio_queues turn_id [];
    stt_cancel_tokens = put s.stt_cancel_tokens turn_id token;
    stt_tasks = put s.stt_tasks turn_id task;
  })
  pure token

-- AgentRuntime._cleanup_stt_turn
unfoldable pub cleanup_stt_turn : ℕ → State → State
unfolding remove discard
cleanup_stt_turn turn_id s = record s {
  stt_audio_queues = remove s.stt_audio_queues turn_id;
  stt_tasks = remove s.stt_tasks turn_id;
  stt_cancel_tokens = remove s.stt_cancel_tokens turn_id;
  finalizing_turns = discard turn_id s.finalizing_turns;
  speech_ended_turn_ids = discard turn_id s.speech_ended_turn_ids;
}

-- `queue = self._stt_audio_queues.get(turn_id)`, and `queue.put(…)` where there is one
unfoldable pub enqueue : ℕ → Option AudioFrame → State → State
unfolding put
enqueue turn_id frame s = elim (get s.stt_audio_queues turn_id) [
  | none ↦ s
  | some queue ↦ record s {
    stt_audio_queues = put s.stt_audio_queues turn_id (queue ++ frame ∷ []);
  }
]

-- `turn.id in self._finalizing_turns`, and the marks of the two sets.
unfoldable pub start_finalizing : ℕ → State → State
unfolding add
start_finalizing turn_id s = record s { finalizing_turns = add turn_id s.finalizing_turns }

unfoldable pub stop_finalizing : ℕ → State → State
unfolding discard
stop_finalizing turn_id s = record s { finalizing_turns = discard turn_id s.finalizing_turns }

unfoldable pub mark_speech_ended : ℕ → State → State
unfolding add
mark_speech_ended turn_id s = record s {
  speech_ended_turn_ids = add turn_id s.speech_ended_turn_ids;
}

-- AgentRuntime._conversation_messages
unfoldable pub conversation_messages : State → List Message
unfolding list_messages
conversation_messages s = elim s.conversations [
  | none ↦ []
  | some messages ↦ list_messages messages s.session_id (some s.organization_id)
]

-- `self._summary_repository.get_latest(…)` and `upsert(…)`
unfoldable pub latest_summary : State → Option ConversationSummary
unfolding get_latest
latest_summary s = elim s.summaries [
  | none ↦ none
  | some summaries ↦ get_latest summaries s.session_id (some s.organization_id)
]

unfoldable pub store_summary : Option ConversationSummary → State → State
unfolding upsert
store_summary none s = s
store_summary (some summary) s = elim s.summaries [
  | none ↦ s
  | some summaries ↦ record s { summaries = some (upsert summary summaries) }
]

unfoldable pub text_message : ℕ → MessageRole → Text → M Message
unfolding fresh_uuid build_text_message
text_message turn_id role text = do
  id ← fresh_uuid
  gets (λ s. build_text_message id s.clock s.session_id turn_id s.organization_id role text)

unfoldable pub store_message : Message → State → State
unfolding append_message
store_message message s = elim s.conversations [
  | none ↦ s
  | some messages ↦ record s { conversations = some (append_message message messages) }
]

-- AgentRuntime._persist_turn_exchange
unfoldable pub persist_turn_exchange : ℕ → Text → Text → M (Unit {0})
persist_turn_exchange turn_id user_text assistant_text s = elim s.conversations [
  | none ↦ (ok tt, s)
  | some _ ↦
      if is_turn_cancelled turn_id s
      then (ok tt, s)
      else (do
        user_message ← text_message turn_id MessageRole.user user_text
        assistant_message ← text_message turn_id MessageRole.assistant assistant_text
        modify (store_message user_message)
        modify (store_message assistant_message))
          s
]
