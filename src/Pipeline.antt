-- ===== src/Pipeline.antt =====
-- The tasks of AgentRuntime in packages/agent-runtime/src/xymphony_runtime/runtime.py that answer a
-- user: what surrounds them, and what they have in common. An await is a list of operations, the
-- steps that the other tasks make before the task goes on; a provider's stream tells them too.
pub mod Numbers
pub mod Context
pub mod Reply
pub mod Voice
pub mod Exchange
pub mod Speech
pub mod Safe
pub mod Gathering
pub mod Answering
pub mod Finishing
pub mod Inputs
pub mod Plain
pub mod Undisturbed
pub mod Completing
pub mod Exchanging
pub mod Silent
pub mod Finalising
use xymphony_voice.Base.{ℕ, Bool, false, ◌||◌, Option, none, some, List, if◌then◌else◌}
use xymphony_voice.Base.Text.{Text, codes}
use xymphony_voice.Base.Dict.{get}
use xymphony_voice.Base.Result.{ok}
use xymphony_voice.Errors.{Raises, Exception, ProviderErrorCode, provider_error}
use xymphony_voice.Json.{Fields}
use xymphony_voice.Conversation.{ToolCall}
use xymphony_voice.Assembler.{LlmConfig, LlmRequest}
use xymphony_voice.Summary.{Streamed}
use xymphony_voice.Tools.Registry.{Registry}
use xymphony_voice.Tools.Executor.{Interpreter}
use xymphony_voice.Events.{TextRange}
use xymphony_voice.Turn.{is_terminal}
use xymphony_voice.Runtime.State.{
  State, M, resume, pure, raise, gets, modify, is_turn_cancelled, token_set,
}
use xymphony_voice.Runtime.Tasks.{fail_turn}
use xymphony_voice.Runtime.Reach.{Operation, run}

-- What an asynchronous iterator gives: each item after an await, up to the end or an exception.
pub data Stream (A : Type 0) : Type 0 where
  arrives : List Operation → A → Stream A → Stream A
  ends : List Operation → Stream A
  breaks : List Operation → Exception → Stream A

-- LLMStreamChunk
pub record LlmChunk : Type 0 where
  pub delta : Text
  pub finish_reason : Option Text
  pub tool_calls : List ToolCall

-- TTSStreamChunk, the fields that the runtime reads
pub record TtsChunk : Type 0 where
  pub audio_ref : Text
  pub text_range : Option TextRange

-- TTSRuntimeConfig
pub record TtsConfig : Type 0 where
  pub provider_key : Text
  pub voice_ref : Text
  pub params : Fields

-- TTSRequest
pub record TtsRequest : Type 0 where
  pub provider_key : Text
  pub voice_ref : Text
  pub text : Text
  pub params : Fields

-- What a retriever or a memory store gives: the contents that it found, a timeout or another
-- Exception, or the task is cancelled while it waits.
pub data Fetched : Type 0 where
  fetched : List Operation → List Text → Fetched
  lost : List Operation → Fetched
  interrupted : List Operation → Fetched

-- What the runtime is built with. `stream` is the model's answer to a request, by the number of
-- iterations that are left; `retriever` and `memory_store` are there where they are enabled;
-- `summary_waits` are the two awaits of the summarizer, `tool_wait` the one of a tool's run, and
-- `transcribing` the one for the listening task, and `transcribed` how that task ended.
pub record Services : Type 0 where
  pub llm_config : Option LlmConfig
  pub stream : ℕ → LlmRequest → Stream LlmChunk
  pub summary_stream : Bool → LlmRequest → Streamed
  pub summary_waits : List Operation × List Operation
  pub retriever : Option (Text → Fetched)
  pub memory_store : Option (Text → Fetched)
  pub tool_registry : Option Registry
  pub interpreter : Interpreter
  pub tool_wait : ToolCall → List Operation
  pub session_name : Text
  pub tts_config : Option TtsConfig
  pub speak : TtsRequest → Stream TtsChunk
  pub speech_input : Bool
  pub transcribing : List Operation
  pub transcribed : Raises (Unit {0})

-- The bind of Runtime/State.antt, which computes only where a line unfolds it.
infixl 5 ◌>>=◌ ◌>>◌
unfoldable pub ◌>>=◌ : {A B : Type 0} → M A → (A → M B) → M B
◌>>=◌ m f s = resume (m s).0 f (m s).1

abbrev pub ◌>>◌ : {B : Type 0} → M (Unit {0}) → M B → M B
m >> n = m >>= λ _. n

unfoldable pub wait : List Operation → M (Unit {0})
unfolding run
wait steps = modify (λ s. run s steps)

-- `cancel.cancelled or self._context.is_turn_cancelled(turn.id)`
unfoldable pub halted : ℕ → ℕ → State → Bool
unfolding token_set is_turn_cancelled
halted turn_id token s = token_set token s || is_turn_cancelled turn_id s

-- `turn.state.is_terminal`
unfoldable pub turn_over : ℕ → State → Bool
turn_over turn_id s = elim (get s.turns turn_id) [
  | none ↦ false
  | some turn ↦ is_terminal turn.state
]

-- `if cancel.cancelled or …: return None`, before the rest
unfoldable pub unless_halted : {A : Type 0} → ℕ → ℕ → M (Option A) → M (Option A)
unfolding halted
unless_halted turn_id token rest = do
  stop ← gets (halted turn_id token)
  if stop then pure none else rest

abbrev pub go_on : {A B : Type 0} → (A → M (Option B)) → Option A → M (Option B)
go_on next none = pure none
go_on next (some a) = next a

-- A step that may return `None` from the method, and what follows otherwise.
unfoldable pub if_some : {A B : Type 0} → M (Option A) → (A → M (Option B)) → M (Option B)
if_some first next = first >>= go_on next

-- `turn.fail(…)`, the event, and `return None`
unfoldable pub fail_and_return : {A : Type 0} → ℕ → Text → Text → Bool → M (Option A)
unfolding fail_turn
fail_and_return turn_id code message retryable = do
  fail_turn turn_id code message retryable
  pure none

-- `exc.code.value`
unfoldable pub code_value : ProviderErrorCode → Text
code_value ProviderErrorCode.timeout = codes "timeout"
code_value ProviderErrorCode.cancelled = codes "cancelled"
code_value ProviderErrorCode.rate_limit = codes "rate_limit"
code_value ProviderErrorCode.auth = codes "auth"
code_value ProviderErrorCode.invalid_request = codes "invalid_request"
code_value ProviderErrorCode.provider = codes "provider"
code_value ProviderErrorCode.unknown = codes "unknown"

-- The handlers `except ProviderError as exc`; any other exception is not caught.
unfoldable pub provider_failure : {A : Type 0} → ℕ → ℕ → Exception → M (Option A)
unfolding unless_halted fail_and_return code_value
provider_failure turn_id token (provider_error e) =
    unless_halted turn_id token (fail_and_return turn_id (code_value e.code) e.message e.retryable)
provider_failure turn_id token e = raise e
