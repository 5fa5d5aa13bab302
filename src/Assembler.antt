-- ===== src/Assembler.antt =====
-- LLMContextAssembler of packages/agent-runtime/src/xymphony_runtime/llm_context.py, with the
-- request of packages/contracts/src/xymphony_contracts/llm.py and the configuration of
-- packages/agent-runtime/src/xymphony_runtime/llm_config.py.
pub mod Ladder
pub mod Request
use xymphony_voice.Base.{
  ℕ, ◌==◌, leb, Bool, true, false, not, ◌&&◌, ◌||◌, Option, none, some, List, [], ◌∷◌, ◌++◌, length,
  if◌then◌else◌,
}
use xymphony_voice.Base.Text.{Text}
use xymphony_voice.Base.Result.{ok, err, ◌>>=◌}
use xymphony_voice.Errors.{Raises, runtime, context_budget_exceeded, validation_error, catch_budget}
use xymphony_voice.Json.{Fields}
use xymphony_voice.Conversation.{
  Message, LlmMessage, LlmRole, llm_message, committed_messages_to_llm,
}
use xymphony_voice.Prompt.{build_system_prompt}
use xymphony_voice.Budget.{select_history}

-- LLMToolDefinition
pub record ToolDefinition : Type 0 where
  pub name : Text
  pub description : Text
  pub parameters : Fields

-- LLMRuntimeConfig; `temperature` and `top_p` are IEEE 754 bit patterns.
pub record LlmConfig : Type 0 where
  pub provider_key : Text
  pub model : Text
  pub system_instructions : Text
  pub params : Fields
  pub max_input_tokens : Option ℕ
  pub temperature : Option ℕ
  pub max_output_tokens : Option ℕ
  pub top_p : Option ℕ
  pub max_tool_iterations : ℕ

pub record LlmRequest : Type 0 where
  pub provider_key : Text
  pub model : Text
  pub messages : List LlmMessage
  pub system : Text
  pub params : Fields
  pub tools : List ToolDefinition
  pub temperature : Option ℕ
  pub max_output_tokens : Option ℕ
  pub top_p : Option ℕ

-- A float in [0, bound]: the patterns of the non-negative floats are ordered as the floats are, and
-- 0x8000000000000000 is -0.0.
float_upto : ℕ → Option ℕ → Bool
float_upto bound none = true
float_upto bound (some bits) = leb bits bound || bits == 0x8000000000000000

at_least_one : Option ℕ → Bool
at_least_one none = true
at_least_one (some n) = leb 1 n

within : ℕ → ℕ → Text → Bool
within lo hi t = leb lo (length t) && leb (length t) hi

-- The field constraints of LLMRequest: 0x4000000000000000 is 2.0, 0x3ff0000000000000 is 1.0.
unfoldable pub validate : LlmRequest → Bool
unfolding float_upto at_least_one within
validate r =
    within 1 64 r.provider_key
    && within 1 256 r.model
    && within 0 32000 r.system
    && float_upto 0x4000000000000000 r.temperature
    && at_least_one r.max_output_tokens
    && float_upto 0x3ff0000000000000 r.top_p

-- The history that was selected and the three optional sections that are still in.
pub record Selected : Type 0 where
  pub history : List LlmMessage
  pub summary : Option Text
  pub knowledge : Option Text
  pub memory : Option Text

-- The call of `LLMRequest(…)` that ends `assemble`.
unfoldable pub build_request :
    LlmConfig → Text → List ToolDefinition → List LlmMessage → Selected → Raises LlmRequest
unfolding validate llm_message
build_request config user tools extra_messages chosen =
    llm_message LlmRole.user user none [] >>= λ message.
    let request : LlmRequest = record {
      provider_key = config.provider_key;
      model = config.model;
      messages = chosen.history ++ message ∷ extra_messages;
      system =
          build_system_prompt config.system_instructions chosen.summary chosen.knowledge
            chosen.memory;
      params = config.params;
      tools = tools;
      temperature = config.temperature;
      max_output_tokens = config.max_output_tokens;
      top_p = config.top_p;
    } in
    if validate request then ok request else err validation_error

module _ (estimate : Text → ℕ) where
  -- One call of `select_history`, whose sections stay in effect if it returns.
  unfoldable pub attempt :
      List LlmMessage → Text → Text → ℕ → Option Text → Option Text → Option Text → Raises Selected
  attempt history user instructions max_tokens summary knowledge memory =
      select_history estimate history user instructions max_tokens summary knowledge memory >>= λ h.
      ok (record { history = h; summary = summary; knowledge = knowledge; memory = memory })

  -- The nested `try` blocks of `assemble`. Each handler selects from the same converted history,
  -- which the source converts again, and re-raises where no section is left to drop.
  unfoldable pub soft_select :
      List LlmMessage → Text → Text → ℕ → Option Text → Option Text → Option Text → Raises Selected
  unfolding catch_budget
  soft_select history user instructions max_tokens summary knowledge memory =
      let select = attempt history user instructions max_tokens in
      let raise = err (runtime context_budget_exceeded) in
      let without_summary : Raises Selected = elim summary [
        | some _ ↦ select none none none
        | none ↦ raise
      ] in
      let without_knowledge : Raises Selected = elim knowledge [
        | some _ ↦ catch_budget (select summary none none) without_summary
        | none ↦ without_summary
      ] in
      catch_budget (select summary knowledge memory) (elim memory [
        | some _ ↦ catch_budget (select summary knowledge none) without_knowledge
        | none ↦ without_knowledge
      ])

  -- `if config.max_input_tokens is not None: …`
  unfoldable pub budgeted :
      Option ℕ
      → List LlmMessage
      → Text
      → Text
      → Option Text
      → Option Text
      → Option Text
      → Raises Selected
  unfolding soft_select
  budgeted none history user instructions summary knowledge memory =
      ok (record { history = history; summary = summary; knowledge = knowledge; memory = memory })
  budgeted (some max_tokens) history user instructions summary knowledge memory =
      soft_select history user instructions max_tokens summary knowledge memory

  unfoldable pub assemble :
      List Message
      → Text
      → LlmConfig
      → Option Text
      → Option Text
      → Option Text
      → List ToolDefinition
      → List LlmMessage
      → Raises LlmRequest
  assemble history user config summary knowledge memory tools extra_messages =
      committed_messages_to_llm history >>= λ llm_history.
      budgeted config.max_input_tokens llm_history user config.system_instructions summary knowledge
        memory
      >>= λ chosen. build_request config user tools extra_messages chosen
