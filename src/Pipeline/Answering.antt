-- ===== src/Pipeline/Answering.antt =====
-- The answer of the model, `_run_llm_stream` of runtime.py, and its speaking, `_run_tts_stream`, keep
-- the turn's token its own; the answer gives no text only if the turn is over.
use xymphony_voice.Base.{
  ℕ, suc, zero, Bool, true, false, Option, none, some, List, [], ◌∷◌, if◌then◌else◌,
}
use xymphony_voice.Base.Text.{Text, is_empty}
use xymphony_voice.Base.Result.{ok, err}
use xymphony_voice.Errors.{Raises, runtime, context_budget_exceeded, validation_error}
use xymphony_voice.Conversation.{LlmMessage, ToolCall}
use xymphony_voice.Assembler.{LlmConfig, LlmRequest}
use xymphony_voice.Tools.Registry.{Registry}
use xymphony_voice.Events.{Event, EventType, EventSource, Payload}
use xymphony_voice.Runtime.State.{State, M, pure, token_set}
use xymphony_voice.Runtime.Dispatch.{llm_token_event, llm_response_event, tts_chunk_event}
use xymphony_voice.Runtime.Turns.{admit}
use xymphony_voice.Runtime.Quiet.{Quiet, admit-Quiet, build_event-Quiet}
use xymphony_voice.Runtime.Tasks.{conversation_messages}
use xymphony_voice.Pipeline.{
  TtsConfig, TtsRequest, Services, Stream, arrives, ends, breaks, LlmChunk, TtsChunk, TtsConfig,
}
use xymphony_voice.Pipeline.Reply.{
  call_with, Reply, no_reply, extend, admit_delta, consume, call_tool, call_tools, respond,
  loop_exceeded, Sections, request_for, use_reply, ask, iterate, converse,
}
use xymphony_voice.Pipeline.Voice.{speak_request, speak_chunks, run_tts_stream}
use xymphony_voice.Pipeline.Gathering.{gather-Safely, prepare_history-Safely}
use xymphony_voice.Pipeline.Safe.{
  raise-Keeps, bind-Keeps, Safely-Keeps, pure-Keeps, is_none, Safely, Keeps, Quiet-Keeps,
  Safely-Keeps, gets-Keeps, lift-Keeps, pure-Keeps, raise-Keeps, bind-Safely, bind-Keeps,
  raise-Safely, some-Safely, if_some-Safely, unless_halted-Safely, wait-Keeps,
  fail_and_return-Safely, provider_failure-Safely,
}

pub admit-Keeps :
    (id x : ℕ) (event : M Event) → ((s : State) → Quiet s (event s).1) → Keeps id x (admit event)
admit-Keeps id x event q = Quiet-Keeps id x (admit event) (λ s. admit-Quiet event s (q s))

module _ (services : Services) (id x : ℕ) (text : Text) where
  admit_delta-Keeps : (delta : Text) → Keeps id x (admit_delta services id x text delta)
  unfolding admit_delta llm_token_event
  admit_delta-Keeps delta = go (is_empty delta)
    where
      go : (b : Bool) → Keeps id x (if b then pure tt else admit (llm_token_event id delta))
      go true = pure-Keeps id x tt
      go false = admit-Keeps id x (llm_token_event id delta) (λ s.
          build_event-Quiet EventType.llm_token (Payload.llm_token delta) (some id) EventSource.llm
            s)

  consume-Safely :
      (stream : Stream LlmChunk) (reply : Reply)
      → Safely id x is_none (consume services id x text stream reply)
  unfolding consume
  consume-Safely (ends steps) reply =
      bind-Safely id x (wait-Keeps id x steps) (λ _. some-Safely id x reply)
  consume-Safely (breaks steps e) reply =
      bind-Safely id x (wait-Keeps id x steps) (λ _. provider_failure-Safely id x e)
  consume-Safely (arrives steps chunk rest) reply = bind-Safely id x (wait-Keeps id x steps) (λ _.
      unless_halted-Safely id x (
        bind-Safely id x (admit_delta-Keeps chunk.delta)
          (λ _. consume-Safely rest (extend reply chunk))))

  call_with-Safely :
      (registry : Option Registry) (call : ToolCall)
      → Safely id x is_none (call_with services id x text registry call)
  unfolding call_with
  call_with-Safely none call =
      bind-Safely id x (lift-Keeps id x _) (λ result. some-Safely id x result)
  call_with-Safely (some registry) call =
      bind-Safely id x (gets-Keeps id x (token_set x)) (λ before.
        bind-Safely id x (wait-Keeps id x (services.tool_wait call)) (λ _.
          bind-Safely id x (gets-Keeps id x (token_set x))
            (λ after. bind-Safely id x (lift-Keeps id x _) (λ result. some-Safely id x result))))

  call_tool-Safely : (call : ToolCall) → Safely id x is_none (call_tool services id x text call)
  unfolding call_tool
  call_tool-Safely call = unless_halted-Safely id x (call_with-Safely services.tool_registry call)

  call_tools-Safely :
      (calls : List ToolCall) → Safely id x is_none (call_tools services id x text calls)
  unfolding call_tools
  call_tools-Safely [] = some-Safely id x []
  call_tools-Safely (call ∷ calls) = if_some-Safely id x (call_tool-Safely call) (λ result.
      if_some-Safely id x (call_tools-Safely calls)
        (λ results. some-Safely id x (result ∷ results)))

  respond-Safely : (reply : Reply) → Safely id x is_none (respond services id x text reply)
  unfolding respond llm_response_event
  respond-Safely reply =
      bind-Safely id x
        (admit-Keeps id x (llm_response_event id reply.text reply.finish_reason) (λ s.
          build_event-Quiet EventType.llm_response
            (Payload.llm_response reply.text reply.finish_reason) (some id) EventSource.llm s))
        (λ _. some-Safely id x reply.text)

  loop_exceeded-Safely : Safely id x is_none (loop_exceeded services id x text)
  unfolding loop_exceeded
  loop_exceeded-Safely = fail_and_return-Safely id x _ _ false

  module _ (config : LlmConfig) (sections : Sections) where
    use_reply-Safely :
        (again : List LlmMessage → M (Option Text)) (extra : List LlmMessage) (reply : Reply)
        (calls : List ToolCall)
        → ((next : List LlmMessage) → Safely id x is_none (again next))
        → Safely id x is_none (use_reply services id x text config sections again extra reply calls)
    unfolding use_reply
    use_reply-Safely again extra reply [] h = respond-Safely reply
    use_reply-Safely again extra reply (call ∷ calls) h =
        if_some-Safely id x (call_tools-Safely (call ∷ calls))
          (λ results. unless_halted-Safely id x (bind-Safely id x (lift-Keeps id x _) h))

    ask-Safely :
        (left : ℕ) (again : List LlmMessage → M (Option Text)) (extra : List LlmMessage)
        (r : Raises LlmRequest)
        → ((next : List LlmMessage) → Safely id x is_none (again next))
        → Safely id x is_none (ask services id x text config sections left again extra r)
    unfolding ask
    ask-Safely left again extra (ok request) h =
        if_some-Safely id x (consume-Safely (services.stream left request) no_reply) (λ reply.
          unless_halted-Safely id x (use_reply-Safely again extra reply reply.tool_calls h))
    ask-Safely left again extra (err (runtime context_budget_exceeded)) h =
        fail_and_return-Safely id x _ _ false
    ask-Safely left again extra (err e) h = raise-Safely id x e

    iterate-Safely :
        (left : ℕ) (extra : List LlmMessage)
        → Safely id x is_none (iterate services id x text config sections left extra)
    unfolding iterate
    iterate-Safely zero extra = loop_exceeded-Safely
    iterate-Safely (suc left) extra = unless_halted-Safely id x (
        ask-Safely left (iterate services id x text config sections left) extra
          (request_for services id x text config sections extra) (iterate-Safely left))

  pub converse-Safely :
      (config : LlmConfig) → Safely id x is_none (converse services id x text config)
  unfolding converse
  converse-Safely config = bind-Safely id x (gets-Keeps id x conversation_messages) (λ history.
      if_some-Safely id x (prepare_history-Safely services id x text config history) (λ prepared.
        if_some-Safely id x (gather-Safely id x text services.retriever) (λ knowledge.
          if_some-Safely id x (gather-Safely id x text services.memory_store)
            (λ memory. iterate-Safely config _ config.max_tool_iterations []))))

module _ (services : Services) (id x : ℕ) where
  speak_chunks-Safely :
      (stream : Stream TtsChunk) → Safely id x is_none (speak_chunks services id x stream)
  unfolding speak_chunks tts_chunk_event
  speak_chunks-Safely (ends steps) =
      bind-Safely id x (wait-Keeps id x steps) (λ _. some-Safely id x tt)
  speak_chunks-Safely (breaks steps e) =
      bind-Safely id x (wait-Keeps id x steps) (λ _. provider_failure-Safely id x e)
  speak_chunks-Safely (arrives steps chunk rest) = bind-Safely id x (wait-Keeps id x steps) (λ _.
      unless_halted-Safely id x (
        bind-Safely id x
          (admit-Keeps id x (tts_chunk_event id chunk.audio_ref chunk.text_range) (λ s.
            build_event-Quiet EventType.tts_chunk
              (Payload.tts_chunk chunk.audio_ref chunk.text_range) (some id) EventSource.tts s))
          (λ _. speak_chunks-Safely rest)))

  speak_request-Keeps :
      (valid : Bool) (request : TtsRequest) → Keeps id x (speak_request services id x valid request)
  unfolding speak_request
  speak_request-Keeps false request = raise-Keeps id x validation_error
  speak_request-Keeps true request =
      bind-Keeps id x (Safely-Keeps id x (speak_chunks-Safely (services.speak request)))
        (λ _. pure-Keeps id x tt)

  pub run_tts_stream-Keeps :
      (config : Option TtsConfig) (text : Text)
      → Keeps id x (run_tts_stream services id x config text)
  unfolding run_tts_stream
  run_tts_stream-Keeps none text = pure-Keeps id x tt
  run_tts_stream-Keeps (some config) text = speak_request-Keeps _ _
