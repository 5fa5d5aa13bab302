-- ===== src/Budget.antt =====
-- ContextBudgetPolicy of packages/agent-runtime/src/xymphony_runtime/context_budget.py. The
-- estimator is the policy's constructor argument; a negative `max_input_tokens` acts as 0.
pub mod Selection
use xymphony_voice.Base.{
  ℕ, ◌-◌, ltb, Bool, true, false, Option, none, some, List, [], ◌∷◌, reverse, length, if◌then◌else◌,
}
use xymphony_voice.Base.Text.{Text}
use xymphony_voice.Base.Result.{Result, ok, err, ◌>>=◌}
use xymphony_voice.Errors.{Raises, runtime, context_budget_exceeded}
use xymphony_voice.Conversation.{LlmMessage}
use xymphony_voice.Prompt.{build_system_prompt}

module _ (estimate : Text → ℕ) where
  -- The loop over `reversed(history)`, up to its `break`.
  unfoldable pub newest_first : ℕ → List LlmMessage → List LlmMessage
  newest_first remaining [] = []
  newest_first remaining (message ∷ older) =
      let cost = estimate message.content in
      let rest = newest_first (remaining - cost) older in
      if ltb remaining cost then [] else message ∷ rest

  unfoldable pub select_history :
      List LlmMessage
      → Text
      → Text
      → ℕ
      → Option Text
      → Option Text
      → Option Text
      → Raises (List LlmMessage)
  select_history history current_user_text system_instructions max_input_tokens summary knowledge
        memory =
      let system_tokens =
        estimate (build_system_prompt system_instructions summary knowledge memory) in
      let user_tokens = estimate current_user_text in
      let remaining = max_input_tokens - system_tokens in
      if ltb max_input_tokens 1
      then err (runtime context_budget_exceeded)
      else if ltb max_input_tokens system_tokens
      then err (runtime context_budget_exceeded)
      else if ltb remaining user_tokens
      then err (runtime context_budget_exceeded)
      else ok (reverse (newest_first (remaining - user_tokens) (reverse history)))

  unfoldable pub would_drop_history : List LlmMessage → Text → Text → ℕ → Raises Bool
  would_drop_history history current_user_text system_instructions max_input_tokens =
      select_history history current_user_text system_instructions max_input_tokens none none none
      >>= λ selected. ok (ltb (length selected) (length history))
