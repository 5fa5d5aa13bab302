-- ===== src/Pipeline/Reply.antt =====
-- AgentRuntime._run_llm_stream of runtime.py.
use xymphony_voice.Base.{
  ℕ, suc, zero, ltb, false, Option, none, some, List, [], ◌∷◌, ◌++◌, if◌then◌else◌,
}
use xymphony_voice.Base.Text.{Text, codes, is_empty}
use xymphony_voice.Base.Result.{ok, err}
use xymphony_voice.Errors.{Raises, runtime, context_budget_exceeded}
use xymphony_voice.Conversation.{Message, LlmMessage, LlmRole, ToolCall, llm_message}
use xymphony_voice.Prompt.{build_system_prompt, approximate_token_count}
use xymphony_voice.Assembler.{LlmConfig, LlmRequest, ToolDefinition, assemble}
use xymphony_voice.Tools.Domain.{ToolResult, ToolErrorCode, failure_result}
use xymphony_voice.Tools.Registry.{Registry, get_definitions}
use xymphony_voice.Tools.Executor.{execute}
use xymphony_voice.Runtime.State.{M, pure, raise, gets, lift, token_set}
use xymphony_voice.Runtime.Dispatch.{llm_token_event, llm_response_event}
use xymphony_voice.Runtime.Turns.{admit}
use xymphony_voice.Runtime.Tasks.{conversation_messages}
use xymphony_voice.Pipeline.{
  ◌>>=◌, ◌>>◌, Services, Stream, arrives, ends, breaks, LlmChunk, wait, unless_halted, if_some,
  fail_and_return, provider_failure,
}
use xymphony_voice.Pipeline.Context.{gather, prepare_history}

-- `full_text_parts`, joined, `finish_reason` and `accumulated_tool_calls`
pub record Reply : Type 0 where
  pub text : Text
  pub finish_reason : Text
  pub tool_calls : List ToolCall

abbrev pub no_reply : Reply
no_reply = record { text = []; finish_reason = codes "stop"; tool_calls = [] }

finish_or : Option Text → Text → Text
finish_or none reason = reason
finish_or (some new) reason = if is_empty new then reason else new

-- What the loop over the chunks does to its variables.
unfoldable pub extend : Reply → LlmChunk → Reply
unfolding finish_or
extend reply chunk = record {
  text = reply.text ++ chunk.delta;
  finish_reason = finish_or chunk.finish_reason reply.finish_reason;
  tool_calls = reply.tool_calls ++ chunk.tool_calls;
}

-- The message of the ContextBudgetExceededError that leaves `assemble`: the last attempt of its
-- ladder has no optional section.
unfoldable pub budget_message : LlmConfig → ℕ → Text
budget_message config max_tokens =
    if ltb max_tokens 1
    then codes "max_input_tokens must be a positive integer when budgeting is enabled"
    else if ltb max_tokens
        (approximate_token_count (build_system_prompt config.system_instructions none none none))
    then codes "system instructions exceed the configured context budget"
    else codes "current user message exceeds the available context budget"

abbrev budget_of : Option ℕ → ℕ
budget_of none = 0
budget_of (some n) = n

-- The tool messages, which come after the assistant's.
tool_messages : List ToolResult → Raises (List LlmMessage)
unfolding llm_message
tool_messages [] = ok []
tool_messages (r ∷ rs) = elim (llm_message LlmRole.tool r.output (some r.tool_call_id) []) [
  | err e ↦ err e
  | ok m ↦ elim (tool_messages rs) [ err e ↦ err e | ok ms ↦ ok (m ∷ ms) ]
]

-- `extra_messages` after an iteration that called tools.
unfoldable pub extra_after : List LlmMessage → Reply → List ToolResult → Raises (List LlmMessage)
unfolding llm_message tool_messages
extra_after extra reply results =
    elim (llm_message LlmRole.assistant reply.text none reply.tool_calls) [
      | err e ↦ err e
      | ok m ↦ elim (tool_messages results) [ err e ↦ err e | ok ms ↦ ok (extra ++ m ∷ ms) ]
    ]

-- What an iteration assembles its request from.
pub record Sections : Type 0 where
  pub history : List Message
  pub summary : Option Text
  pub knowledge : Option Text
  pub memory : Option Text
  pub tools : List ToolDefinition

module _ (services : Services) (turn_id token : ℕ) (text : Text) where
  unfoldable pub admit_delta : Text → M (Unit {0})
  unfolding admit llm_token_event
  admit_delta delta = if is_empty delta then pure tt else admit (llm_token_event turn_id delta)

  -- The `async for` over the chunks of one answer, with its `except`.
  unfoldable pub consume : Stream LlmChunk → Reply → M (Option Reply)
  unfolding wait unless_halted provider_failure admit_delta extend
  consume (ends steps) reply = do wait steps; pure (some reply)
  consume (breaks steps e) reply = do wait steps; provider_failure turn_id token e
  consume (arrives steps chunk rest) reply = do
    wait steps
    unless_halted turn_id token (do admit_delta chunk.delta; consume rest (extend reply chunk))

  -- The executor's call, or the failure where there is no registry. The await is the handler's; a
  -- result settled before it has none.
  unfoldable pub call_with : Option Registry → ToolCall → M (Option ToolResult)
  unfolding wait execute failure_result token_set
  call_with none call = do
    result ← lift (
        failure_result call.id call.name
          (codes "Tool '"
            ++ (call.name ++ codes "' cannot be executed: no tool registry is configured."))
          ToolErrorCode.tool_not_found)
    pure (some result)
  call_with (some registry) call = do
    before ← gets (token_set token)
    wait (services.tool_wait call)
    after ← gets (token_set token)
    result ← lift (
        execute services.interpreter registry call
          (some (record { tool_call_id = call.id; session_id = some services.session_name }))
          (some (record { before = before; after = after })))
    pure (some result)

  unfoldable pub call_tool : ToolCall → M (Option ToolResult)
  unfolding unless_halted call_with
  call_tool call = unless_halted turn_id token (call_with services.tool_registry call)

  unfoldable pub call_tools : List ToolCall → M (Option (List ToolResult))
  unfolding call_tool if_some
  call_tools [] = pure (some [])
  call_tools (call ∷ calls) =
      if_some (call_tool call)
        (λ result. if_some (call_tools calls) (λ results. pure (some (result ∷ results))))

  -- `if not accumulated_tool_calls: …`
  unfoldable pub respond : Reply → M (Option Text)
  unfolding admit llm_response_event
  respond reply = do
    admit (llm_response_event turn_id reply.text reply.finish_reason)
    pure (some reply.text)

  unfoldable pub loop_exceeded : M (Option Text)
  unfolding fail_and_return
  loop_exceeded =
      fail_and_return turn_id (codes "tool_loop_limit_exceeded")
        (codes "Tool loop iteration limit exceeded") false

  module _ (config : LlmConfig) (sections : Sections) where
    unfoldable pub request_for : List LlmMessage → Raises LlmRequest
    unfolding assemble
    request_for extra =
        assemble approximate_token_count sections.history text config sections.summary
          sections.knowledge sections.memory sections.tools extra

    -- What an iteration does with a finished answer and its tool calls; `again` is the next
    -- iteration.
    unfoldable pub use_reply :
        (List LlmMessage → M (Option Text))
        → List LlmMessage
        → Reply
        → List ToolCall
        → M (Option Text)
    unfolding respond call_tools extra_after unless_halted if_some
    use_reply again extra reply [] = respond reply
    use_reply again extra reply (call ∷ calls) = if_some (call_tools (call ∷ calls)) (λ results.
        unless_halted turn_id token (do next ← lift (extra_after extra reply results); again next))

    -- The body of an iteration, from the assembled request on.
    unfoldable pub ask :
        ℕ
        → (List LlmMessage → M (Option Text))
        → List LlmMessage
        → Raises LlmRequest
        → M (Option Text)
    unfolding fail_and_return budget_message consume unless_halted use_reply if_some
    ask left again extra (ok request) =
        if_some (consume (services.stream left request) no_reply)
          (λ reply. unless_halted turn_id token (use_reply again extra reply reply.tool_calls))
    ask left again extra (err (runtime context_budget_exceeded)) =
        fail_and_return turn_id (codes "context_budget_exceeded")
          (budget_message config (budget_of config.max_input_tokens)) false
    ask left again extra (err e) = raise e

    -- `for iteration in range(max_tool_iterations): …` and what follows it.
    unfoldable pub iterate : ℕ → List LlmMessage → M (Option Text)
    unfolding unless_halted ask request_for loop_exceeded
    iterate zero extra = loop_exceeded
    iterate (suc left) extra =
        unless_halted turn_id token (ask left (iterate left) extra (request_for extra))

  -- From the gathering of the sections on.
  unfoldable pub converse : LlmConfig → M (Option Text)
  unfolding conversation_messages prepare_history gather iterate if_some get_definitions
  converse config = do
    history ← gets conversation_messages
    if_some (prepare_history services turn_id token text config history) (λ prepared.
        if_some (gather turn_id token text services.retriever) (λ knowledge.
          if_some (gather turn_id token text services.memory_store) (λ memory.
            iterate config
              (record {
                history = prepared.1;
                summary = prepared.0;
                knowledge = knowledge;
                memory = memory;
                tools = elim services.tool_registry [
                  | none ↦ []
                  | some registry ↦ get_definitions registry
                ];
              })
              config.max_tool_iterations [])))

  -- AgentRuntime._run_llm_stream, where a model is configured; without one it returns None.
  unfoldable pub run_llm_stream : Option LlmConfig → M (Option Text)
  unfolding converse
  run_llm_stream none = pure none
  run_llm_stream (some config) = converse config
