-- ===== src/Runtime/State.antt =====
-- The state of an AgentRuntime: its own fields, its RuntimeContext (context.py), its in-memory
-- session and conversation repositories (persistence/memory.py), and what it takes from its
-- surroundings. A method is a function from the state to a result, or an exception, and the state
-- that is left: what was assigned before a `raise` stays assigned.
use xymphony_voice.Base.{ℕ, suc, ◌+◌, Bool, true, Option, none, some, List, ◌∷◌, mem}
use xymphony_voice.Base.Dict.{Dict}
use xymphony_voice.Base.Result.{ok, err}
use xymphony_voice.Errors.{Raises, Exception}
use xymphony_voice.Conversation.{Message}
use xymphony_voice.Summary.{ConversationSummary}
use xymphony_voice.Turn.{RuntimeTurn}
use xymphony_voice.Events.{Event}

-- SessionStatus and SessionEndReason
pub data SessionStatus : Type 0 where
  initializing active completed failed terminated : SessionStatus

pub data SessionEndReason : Type 0 where
  user_stop max_duration max_turns disconnect provider_failed worker_draining error :
      SessionEndReason

-- RuntimeContext. `shutdown` and `cancelled_turn_ids` are the private event and set.
pub record Context : Type 0 where
  pub session_id : ℕ
  pub organization_id : ℕ
  pub project_id : ℕ
  pub agent_id : ℕ
  pub agent_version_id : ℕ
  pub deployment_id : Option ℕ
  pub session_status : SessionStatus
  pub shutdown : Bool
  pub cancelled_turn_ids : List ℕ
  pub sequence : ℕ
  pub turn_sequence : ℕ

-- xymphony_contracts.session.Session, the fields that the runtime reads or writes
pub record Session : Type 0 where
  pub id : ℕ
  pub organization_id : ℕ
  pub project_id : ℕ
  pub status : SessionStatus
  pub ended_at : Option ℕ
  pub end_reason : Option SessionEndReason

-- STTAudioFrame, with its bytes
pub record AudioFrame : Type 0 where
  pub data_bytes : List ℕ
  pub sample_rate_hz : ℕ
  pub channels : ℕ
  pub duration_ms : ℕ

-- A cancellation token is an object that two dictionaries may share: a token is its identity, and
-- `set_tokens` holds those whose event is set. `deliveries` records the calls of the listeners.
-- `uuids` is the next value of `uuid4()`, and `clock` the reading of `datetime.now`. A queue of audio
-- holds frames, and `none` for the end; a task is its identity.
pub record State : Type 0 where
  pub context : Context
  pub open context use *
  pub running : Bool
  pub turns : Dict RuntimeTurn
  pub current_turn_id : Option ℕ
  pub admitted_events : List Event
  pub listeners : List ℕ
  pub deliveries : List (ℕ × Event)
  pub llm_cancel_tokens : Dict ℕ
  pub stt_cancel_tokens : Dict ℕ
  pub tts_cancel_tokens : Dict ℕ
  pub set_tokens : List ℕ
  pub stt_audio_queues : Dict (List (Option AudioFrame))
  pub stt_tasks : Dict ℕ
  pub finalizing_turns : List ℕ
  pub speech_ended_turn_ids : List ℕ
  pub sessions : Option (Dict Session)
  pub conversations : Option (Dict (List Message))
  pub summaries : Option (Dict ConversationSummary)
  pub uuids : ℕ
  pub clock : ℕ

abbrev pub M : Type 0 → Type 0
M A = State → Raises A × State

abbrev pub resume : {A B : Type 0} → Raises A → (A → M B) → M B
resume (ok a) f s = f a s
resume (err e) f s = (err e, s)

infixl 5 ◌>>=◌ ◌>>◌
abbrev pub ◌>>=◌ : {A B : Type 0} → M A → (A → M B) → M B
◌>>=◌ m f s = resume (m s).0 f (m s).1

abbrev pub ◌>>◌ : {B : Type 0} → M (Unit {0}) → M B → M B
m >> n = m >>= λ _. n

abbrev pub pure : {A : Type 0} → A → M A
pure a s = (ok a, s)

abbrev pub raise : {A : Type 0} → Exception → M A
raise e s = (err e, s)

abbrev pub gets : {A : Type 0} → (State → A) → M A
gets f s = (ok (f s), s)

abbrev pub modify : (State → State) → M (Unit {0})
modify f s = (ok tt, f s)

abbrev pub lift : {A : Type 0} → Raises A → M A
lift r s = (r, s)

-- RuntimeContext.next_event_sequence
unfoldable pub next_event_sequence : M ℕ
next_event_sequence s =
    (ok (s.sequence + 1), record s { context = record (s.context) { sequence = s.sequence + 1 } })

-- RuntimeContext.next_turn_sequence
unfoldable pub next_turn_sequence : M ℕ
next_turn_sequence s = (
  ok (s.turn_sequence + 1),
  record s { context = record (s.context) { turn_sequence = s.turn_sequence + 1 } },
)

-- RuntimeContext.request_shutdown
unfoldable pub request_shutdown : State → State
request_shutdown s = record s { context = record (s.context) { shutdown = true } }

-- RuntimeContext.cancel_turn
unfoldable pub mark_cancelled : ℕ → State → State
mark_cancelled turn_id s = record s {
  context = record (s.context) { cancelled_turn_ids = turn_id ∷ s.cancelled_turn_ids };
}

-- RuntimeContext.is_turn_cancelled
unfoldable pub is_turn_cancelled : ℕ → State → Bool
is_turn_cancelled turn_id s = mem turn_id s.cancelled_turn_ids

-- EventCancellationToken.cancelled
unfoldable pub token_set : ℕ → State → Bool
token_set token s = mem token s.set_tokens

-- `token = tokens.get(turn_id); if token is not None: token.cancel()`
unfoldable pub set_token : Option ℕ → State → State
set_token none s = s
set_token (some token) s = record s { set_tokens = token ∷ s.set_tokens }

unfoldable pub fresh_uuid : M ℕ
fresh_uuid s = (ok s.uuids, record s { uuids = suc s.uuids })
