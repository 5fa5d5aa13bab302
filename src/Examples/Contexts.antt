-- ===== src/Examples/Contexts.antt =====
-- Contexts assembled as packages/agent-runtime/src/xymphony_runtime/llm_context.py does, with the
-- estimator of token_estimate.py.
use xymphony_voice.Base.{
  ℕ, ◌+◌, ◌*◌, ◌≤◌, ◌<◌, ◌≡◌, ◌↔◌, ◌⊎◌, refl, none, some, List, [], ◌∷◌, ◌++◌, length,
}
use xymphony_voice.Base.Text.{codes, text_eq}
use xymphony_voice.Base.Result.{ok}
use xymphony_voice.Errors.{catch_budget}
use xymphony_voice.Json.{end, get}
use xymphony_voice.Conversation.{
  LlmMessage, LlmRole, Message, MessageRole, build_text_message, committed_messages_to_llm,
}
use xymphony_voice.Prompt.{approximate_token_count, build_system_prompt, section}
use xymphony_voice.Prompt.Length.{approximate_token_count_mono, approximate_token_count_ceiling}
use xymphony_voice.Budget.{newest_first, select_history}
use xymphony_voice.Budget.Selection.{cost, fixed_cost, select_history_lem}
use xymphony_voice.Assembler.{
  LlmConfig, LlmRequest, soft_select, attempt, budgeted, build_request, assemble,
}
use xymphony_voice.Assembler.Ladder.{
  exceeded, first_fit, soft_select-eq-first_fit, soft_select_raises_iff,
}
use xymphony_voice.Assembler.Request.{assemble-fits}

abbrev old : LlmMessage
old = record {
  role = LlmRole.user;
  content = codes "what is the time";
  tool_call_id = none;
  tool_calls = [];
}

abbrev recent : LlmMessage
recent = record {
  role = LlmRole.assistant;
  content = codes "noon";
  tool_call_id = none;
  tool_calls = [];
}

abbrev tight : ℕ
tight = 3

abbrev history : List LlmMessage
history = old ∷ recent ∷ []

-- The budget holds the prompt, the user's text and the recent message, and not the old one.
select_one :
    select_history approximate_token_count history
      (codes "hello")
      (codes "be kind")
      6
      none
      none
      none
    ≡ ok (recent ∷ [])
unfolding select_history newest_first build_system_prompt section approximate_token_count
select_one = refl

select_history_lem_example :
    (dropped : List LlmMessage) × (history ≡ dropped ++ recent ∷ [])
    × (fixed_cost approximate_token_count history (codes "hello") (codes "be kind") 6 none none none
          + cost approximate_token_count (recent ∷ [])
        ≤ 6)
    × ((dropped ≡ [])
        ⊎ ((older : List LlmMessage) × (m : LlmMessage) × (dropped ≡ older ++ m ∷ [])
            × (6
                < fixed_cost approximate_token_count history
                    (codes "hello")
                    (codes "be kind")
                    6
                    none
                    none
                    none
                  + cost approximate_token_count (recent ∷ [])
                  + approximate_token_count m.content)))
select_history_lem_example =
    select_history_lem approximate_token_count history (codes "hello") (codes "be kind") 6 none none
      none (recent ∷ []) select_one

soft_select-eq-first_fit_example :
    soft_select approximate_token_count history
      (codes "hello")
      (codes "be kind")
      9
      (some (codes "met"))
      (some (codes "a fact"))
      (some (codes "a name"))
    ≡ first_fit approximate_token_count history
        (codes "hello")
        (codes "be kind")
        9
        (some (codes "met"))
        (some (codes "a fact"))
        (some (codes "a name"))
soft_select-eq-first_fit_example =
    soft_select-eq-first_fit approximate_token_count history (codes "hello") (codes "be kind") 9
      (some (codes "met")) (some (codes "a fact")) (some (codes "a name"))

soft_select_raises_iff_example :
    (soft_select approximate_token_count history
        (codes "hello")
        (codes "be kind")
        3
        (some (codes "met"))
        none
        (some (codes "a name"))
      ≡ exceeded)
    ↔ ((tight ≡ 0)
        ⊎ (3
            < approximate_token_count (build_system_prompt (codes "be kind") none none none)
              + approximate_token_count (codes "hello")))
soft_select_raises_iff_example =
    soft_select_raises_iff approximate_token_count history (codes "hello") (codes "be kind") 3
      (some (codes "met")) none (some (codes "a name")) approximate_token_count_mono

approximate_token_count_ceiling_example :
    (length (codes "noon") ≤ 4 * approximate_token_count (codes "noon"))
    × (4 * approximate_token_count (codes "noon") < length (codes "noon") + 4)
approximate_token_count_ceiling_example = approximate_token_count_ceiling (codes "noon")

abbrev config : LlmConfig
config = record {
  provider_key = codes "openai";
  model = codes "gpt";
  system_instructions = codes "be kind";
  params = end;
  max_input_tokens = some 6;
  temperature = none;
  max_output_tokens = some 64;
  top_p = none;
  max_tool_iterations = 5;
}

abbrev stored : List Message
stored =
    build_text_message 1 10 7 8 9 MessageRole.user (codes "what is the time")
    ∷ build_text_message 2 11 7 8 9 MessageRole.assistant (codes "noon")
    ∷ []

abbrev request : LlmRequest
request = record {
  provider_key = codes "openai";
  model = codes "gpt";
  messages =
      record {
        role = LlmRole.assistant;
        content = codes "noon";
        tool_call_id = none;
        tool_calls = [];
      }
      ∷ record {
        role = LlmRole.user;
        content = codes "hello";
        tool_call_id = none;
        tool_calls = [];
      }
      ∷ [];
  system = codes "be kind";
  params = end;
  tools = [];
  temperature = none;
  max_output_tokens = some 64;
  top_p = none;
}

-- The memory text does not fit beside the rest, so it is dropped.
assembled :
    assemble approximate_token_count stored
      (codes "hello")
      config
      none
      none
      (some (codes "likes tea"))
      []
      []
    ≡ ok request
unfolding assemble soft_select attempt catch_budget select_history newest_first build_system_prompt
    section approximate_token_count build_request committed_messages_to_llm build_text_message
    text_eq get budgeted
assembled = refl

assemble-fits_example :
    (dropped : List LlmMessage) × (selected : List LlmMessage) × (message : LlmMessage)
    × (committed_messages_to_llm stored ≡ ok (dropped ++ selected))
    × (request.messages ≡ selected ++ message ∷ [])
    × (message.content ≡ codes "hello")
    × (message.role ≡ LlmRole.user)
    × (approximate_token_count request.system
          + approximate_token_count (codes "hello")
          + cost approximate_token_count selected
        ≤ 6)
assemble-fits_example =
    assemble-fits approximate_token_count stored (codes "hello") config none none
      (some (codes "likes tea")) [] [] 6 request refl assembled
