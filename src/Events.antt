-- ===== src/Events.antt =====
-- The event envelope of packages/contracts/src/xymphony_contracts/events.py and enums.py.
use xymphony_voice.Base.{
  ℕ, ◌==◌, leb, Bool, true, false, not, ◌&&◌, ◌||◌, Option, none, some, List, length, mem,
  if◌then◌else◌, is_some,
}
use xymphony_voice.Base.Text.{Text}

pub data EventType : Type 0 where
  audio_frame user_speech_started user_speech_ended transcript_frame llm_token : EventType
  llm_response tts_chunk agent_interrupted error session_started session_ended : EventType

pub data EventSource : Type 0 where
  vad stt runtime llm tts tool workflow transport system : EventSource

pub record TextRange : Type 0 where
  pub start : ℕ
  pub finish : ℕ

-- The payload classes. An audio frame carries its track, codec, duration and data reference; a
-- transcript frame its text, whether it is final, its start and end and its confidence (a float's
-- bit pattern); an interruption the turn and the played and unplayed text.
pub data Payload : Type 0 where
  audio_frame : Text → Text → ℕ → Option Text → Payload
  user_speech_started : Payload
  user_speech_ended : ℕ → Payload
  transcript_frame : Text → Bool → ℕ → ℕ → Option ℕ → Payload
  llm_token : Text → Payload
  llm_response : Text → Text → Payload
  tts_chunk : Text → Option TextRange → Payload
  agent_interrupted : ℕ → Text → Text → Payload
  error : Text → Text → Bool → Payload
  session_started : Payload
  session_ended : Text → Payload

within : ℕ → ℕ → Text → Bool
within lo hi t = leb lo (length t) && leb (length t) hi

within_opt : ℕ → Option Text → Bool
within_opt hi none = true
within_opt hi (some t) = leb (length t) hi

-- 0 ≤ x ≤ 1 on the bit pattern of a float; 0x3ff0000000000000 is 1.0 and 0x8000000000000000 is -0.0.
unit_float : Option ℕ → Bool
unit_float none = true
unit_float (some bits) = leb bits 0x3ff0000000000000 || bits == 0x8000000000000000

range_ok : Option TextRange → Bool
range_ok none = true
range_ok (some r) = leb r.start r.finish

-- The field constraints and validators of the payload classes.
unfoldable pub valid_payload : Payload → Bool
unfolding within within_opt unit_float range_ok
valid_payload (Payload.audio_frame track codec duration_ms data_ref) =
    within 1 128 track && within 1 64 codec && within_opt 1024 data_ref
valid_payload Payload.user_speech_started = true
valid_payload (Payload.user_speech_ended duration_ms) = true
valid_payload (Payload.transcript_frame text is_final start_ms end_ms confidence) =
    leb start_ms end_ms && unit_float confidence
valid_payload (Payload.llm_token delta) = true
valid_payload (Payload.llm_response text finish_reason) = within 1 64 finish_reason
valid_payload (Payload.tts_chunk audio_ref text_range) =
    within 1 1024 audio_ref && range_ok text_range
valid_payload (Payload.agent_interrupted turn_id played unplayed) = true
valid_payload (Payload.error code message retryable) = within 1 128 code && within 1 4000 message
valid_payload Payload.session_started = true
valid_payload (Payload.session_ended reason) = within 1 128 reason

-- Event, with the fields that the runtime sets.
pub record Event : Type 0 where
  pub id : ℕ
  pub type : EventType
  pub timestamp : ℕ
  pub session_id : ℕ
  pub organization_id : ℕ
  pub project_id : ℕ
  pub agent_id : ℕ
  pub agent_version_id : ℕ
  pub deployment_id : Option ℕ
  pub turn_id : Option ℕ
  pub sequence : ℕ
  pub source : EventSource
  pub correlation_id : ℕ
  pub causation_id : Option ℕ
  pub payload : Payload

-- TURN_SCOPED_EVENT_TYPES
unfoldable pub turn_scoped : EventType → Bool
turn_scoped error = false
turn_scoped session_started = false
turn_scoped session_ended = false
turn_scoped _ = true

-- STALE_IF_TURN_CANCELLED
unfoldable pub stale_if_turn_cancelled : EventType → Bool
stale_if_turn_cancelled EventType.llm_token = true
stale_if_turn_cancelled EventType.llm_response = true
stale_if_turn_cancelled EventType.tts_chunk = true
stale_if_turn_cancelled EventType.audio_frame = true
stale_if_turn_cancelled EventType.transcript_frame = true
stale_if_turn_cancelled _ = false

-- `_PAYLOAD_BY_TYPE`, from the payload's class to its event type.
unfoldable pub type_of : Payload → EventType
type_of (Payload.audio_frame _ _ _ _) = EventType.audio_frame
type_of Payload.user_speech_started = EventType.user_speech_started
type_of (Payload.user_speech_ended _) = EventType.user_speech_ended
type_of (Payload.transcript_frame _ _ _ _ _) = EventType.transcript_frame
type_of (Payload.llm_token _) = EventType.llm_token
type_of (Payload.llm_response _ _) = EventType.llm_response
type_of (Payload.tts_chunk _ _) = EventType.tts_chunk
type_of (Payload.agent_interrupted _ _ _) = EventType.agent_interrupted
type_of (Payload.error _ _ _) = EventType.error
type_of Payload.session_started = EventType.session_started
type_of (Payload.session_ended _) = EventType.session_ended

EventType-discrete : Discrete EventType
EventType-discrete = hlevel

same_type : EventType → EventType → Bool
unfolding EventType-discrete
same_type a b = elim (EventType-discrete a b) [ yes _ ↦ true | no _ ↦ false ]

same_turn : Option ℕ → ℕ → Bool
same_turn none id = false
same_turn (some turn_id) id = turn_id == id

-- The second half of `payload_and_turn_rules`.
interrupts_own_turn : Option ℕ → Payload → Bool
unfolding same_turn
interrupts_own_turn turn_id (Payload.agent_interrupted interrupted _ _) =
    same_turn turn_id interrupted
interrupts_own_turn turn_id _ = true

-- The validator Event.payload_and_turn_rules, and `sequence: int = Field(ge=1)`.
unfoldable pub valid_event : Event → Bool
unfolding same_type turn_scoped type_of interrupts_own_turn
valid_event event =
    leb 1 event.sequence
    && same_type (type_of event.payload) event.type
    && (if turn_scoped event.type then is_some event.turn_id else true)
    && interrupts_own_turn event.turn_id event.payload

-- Event.is_stale_for_cancelled_turns
unfoldable pub is_stale : Event → List ℕ → Bool
unfolding stale_if_turn_cancelled mem
is_stale event cancelled_turn_ids = elim event.turn_id [
  | none ↦ false
  | some turn_id ↦
      if not (stale_if_turn_cancelled event.type) then false else mem turn_id cancelled_turn_ids
]
