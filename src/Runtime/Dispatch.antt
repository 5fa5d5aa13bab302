-- ===== src/Runtime/Dispatch.antt =====
-- packages/agent-runtime/src/xymphony_runtime/dispatch.py: events built from the context. The
-- payload is built, and may be refused, before a sequence number is taken.
use xymphony_voice.Base.{ℕ, Bool, not, Option, none, some, [], if◌then◌else◌}
use xymphony_voice.Base.Text.{Text}
use xymphony_voice.Errors.{validation_error}
use xymphony_voice.Events.{
  EventType, EventSource, Payload, Event, TextRange, valid_payload, valid_event,
}
use xymphony_voice.Runtime.State.{M, ◌>>=◌, pure, raise, gets, next_event_sequence, fresh_uuid}

-- build_event, with the correlation and causation left to their defaults, as in every call.
unfoldable pub build_event : EventType → Payload → Option ℕ → EventSource → M Event
unfolding next_event_sequence fresh_uuid
build_event type payload turn_id source =
    if not (valid_payload payload) then raise validation_error else do
      id ← fresh_uuid
      sequence ← next_event_sequence
      event ← gets (λ s. record {
        id = id;
        type = type;
        timestamp = s.clock;
        session_id = s.session_id;
        organization_id = s.organization_id;
        project_id = s.project_id;
        agent_id = s.agent_id;
        agent_version_id = s.agent_version_id;
        deployment_id = s.deployment_id;
        turn_id = turn_id;
        sequence = sequence;
        source = source;
        correlation_id = s.session_id;
        causation_id = none;
        payload = payload;
      })
      if valid_event event then pure event else raise validation_error

unfoldable pub session_started_event : M Event
unfolding build_event
session_started_event =
    build_event EventType.session_started Payload.session_started none EventSource.system

unfoldable pub session_ended_event : Text → M Event
unfolding build_event
session_ended_event reason =
    build_event EventType.session_ended (Payload.session_ended reason) none EventSource.system

unfoldable pub user_speech_started_event : ℕ → M Event
unfolding build_event
user_speech_started_event turn_id =
    build_event EventType.user_speech_started Payload.user_speech_started (some turn_id)
      EventSource.vad

unfoldable pub user_speech_ended_event : ℕ → M Event
unfolding build_event
user_speech_ended_event turn_id =
    build_event EventType.user_speech_ended (Payload.user_speech_ended 0) (some turn_id)
      EventSource.vad

unfoldable pub agent_interrupted_event : ℕ → M Event
unfolding build_event
agent_interrupted_event turn_id =
    build_event EventType.agent_interrupted (Payload.agent_interrupted turn_id [] []) (some turn_id)
      EventSource.runtime

unfoldable pub error_event : Text → Text → Option ℕ → Bool → M Event
unfolding build_event
error_event code message turn_id retryable =
    build_event EventType.error (Payload.error code message retryable) turn_id EventSource.runtime

unfoldable pub llm_token_event : ℕ → Text → M Event
unfolding build_event
llm_token_event turn_id delta =
    build_event EventType.llm_token (Payload.llm_token delta) (some turn_id) EventSource.llm

unfoldable pub llm_response_event : ℕ → Text → Text → M Event
unfolding build_event
llm_response_event turn_id text finish_reason =
    build_event EventType.llm_response (Payload.llm_response text finish_reason) (some turn_id)
      EventSource.llm

unfoldable pub transcript_frame_event : ℕ → Text → Bool → ℕ → ℕ → Option ℕ → M Event
unfolding build_event
transcript_frame_event turn_id text is_final start_ms end_ms confidence =
    build_event EventType.transcript_frame
      (Payload.transcript_frame text is_final start_ms end_ms confidence) (some turn_id)
      EventSource.stt

unfoldable pub tts_chunk_event : ℕ → Text → Option TextRange → M Event
unfolding build_event
tts_chunk_event turn_id audio_ref text_range =
    build_event EventType.tts_chunk (Payload.tts_chunk audio_ref text_range) (some turn_id)
      EventSource.tts
