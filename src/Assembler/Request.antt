-- ===== src/Assembler/Request.antt =====
-- The request that `assemble` builds under a token budget.
use xymphony_voice.Base.{
  ℕ, ◌≤◌, ◌+◌, ◌≡◌, ◌∙◌, refl, sym, ap, inl, inr, Option, none, some, List, [], ◌∷◌, ◌++◌, arith,
}
use xymphony_voice.Base.Text.{Text}
use xymphony_voice.Base.Result.{ok, >>=-eq-ok}
use xymphony_voice.Errors.{catch_budget-eq-ok}
use xymphony_voice.Conversation.{Message, LlmMessage, LlmRole, committed_messages_to_llm}
use xymphony_voice.Prompt.{build_system_prompt}
use xymphony_voice.Budget.{select_history}
use xymphony_voice.Budget.Selection.{cost, select_history_lem}
use xymphony_voice.Assembler.{
  Selected, ToolDefinition, LlmConfig, LlmRequest, attempt, soft_select, budgeted, build_request,
  assemble,
}
use xymphony_voice.Assembler.Ladder.{soft_select-eq-first_fit}

record Built (config : LlmConfig) (user : Text) (extra : List LlmMessage) (chosen : Selected)
    (request : LlmRequest) : Type 0 where
  message : LlmMessage
  content : message.content ≡ user
  role : message.role ≡ LlmRole.user
  messages : request.messages ≡ chosen.history ++ message ∷ extra
  system :
      request.system
      ≡ build_system_prompt config.system_instructions chosen.summary chosen.knowledge chosen.memory

build_request-Built :
    (config : LlmConfig) (user : Text) (tools : List ToolDefinition) (extra : List LlmMessage)
    (chosen : Selected) (request : LlmRequest)
    → build_request config user tools extra chosen ≡ ok request
    → Built config user extra chosen request
unfolding build_request
build_request-Built config user tools extra chosen request h = record {
  message = record { role = LlmRole.user; content = user; tool_call_id = none; tool_calls = [] };
  content = refl;
  role = refl;
  messages = ground arith;
  system = ground arith;
}

module _ (estimate : Text → ℕ) where
  module _ (history : List LlmMessage) (user instructions : Text) (budget : ℕ) where
    -- The sections that stay in effect are those that the history was selected with.
    IsSelection : Selected → Type 0
    IsSelection chosen =
        select_history estimate history user instructions budget chosen.summary chosen.knowledge
          chosen.memory
        ≡ ok chosen.history

    attempt-IsSelection :
        (s k m : Option Text) (chosen : Selected)
        → attempt estimate history user instructions budget s k m ≡ ok chosen
        → IsSelection chosen
    unfolding attempt IsSelection
    attempt-IsSelection s k m chosen h =
        let (a, e, r) =
          >>=-eq-ok (select_history estimate history user instructions budget s k m) _ h in
        cc (e, r)

    soft_select-IsSelection :
        (s k m : Option Text) (chosen : Selected)
        → soft_select estimate history user instructions budget s k m ≡ ok chosen
        → IsSelection chosen
    soft_select-IsSelection s k m chosen h =
        elim (catch_budget-eq-ok _ _
          (sym (soft_select-eq-first_fit estimate history user instructions budget s k m) ∙ h)) [
            | inl a ↦ attempt-IsSelection s k m chosen a
            | inr r ↦ elim (catch_budget-eq-ok _ _ r) [
              | inl a ↦ attempt-IsSelection s k none chosen a
              | inr r ↦ elim (catch_budget-eq-ok _ _ r) [
                | inl a ↦ attempt-IsSelection s none none chosen a
                | inr a ↦ attempt-IsSelection none none none chosen a
              ]
            ]
          ]

  budgeted-IsSelection :
      (history : List LlmMessage) (user instructions : Text) (budget : ℕ) (limit : Option ℕ)
      (s k m : Option Text) (chosen : Selected)
      → limit ≡ some budget
      → budgeted estimate limit history user instructions s k m ≡ ok chosen
      → IsSelection history user instructions budget chosen
  budgeted-IsSelection history user instructions budget limit s k m chosen e h =
      soft_select-IsSelection history user instructions budget s k m chosen
        (unfold budgeted in rw e at h)

  -- A request that `assemble` returns under a budget holds, in order, a suffix of the committed
  -- history, one user message with the current text, and the extra messages. Its system prompt,
  -- the user text and that suffix together cost at most the budget, by the policy's estimator.
  pub assemble-fits :
      (history : List Message) (user : Text) (config : LlmConfig)
      (summary knowledge memory : Option Text) (tools : List ToolDefinition)
      (extra : List LlmMessage) (budget : ℕ) (request : LlmRequest)
      → config.max_input_tokens ≡ some budget
      → assemble estimate history user config summary knowledge memory tools extra ≡ ok request
      → (dropped : List LlmMessage) × (selected : List LlmMessage) × (message : LlmMessage)
        × (committed_messages_to_llm history ≡ ok (dropped ++ selected))
        × (request.messages ≡ selected ++ message ∷ extra)
        × (message.content ≡ user)
        × (message.role ≡ LlmRole.user)
        × (estimate request.system + estimate user + cost estimate selected ≤ budget)
  unfolding assemble IsSelection
  assemble-fits history user config summary knowledge memory tools extra budget request limited h =
      let (converted, c, rest) = >>=-eq-ok (committed_messages_to_llm history) _ h in
      let (chosen, b, made) =
        >>=-eq-ok
          (budgeted estimate config.max_input_tokens converted user config.system_instructions
            summary knowledge memory)
          _ rest in
      let built = build_request-Built config user tools extra chosen request made in
      let (dropped, joined, fits, _) =
        select_history_lem estimate converted user config.system_instructions budget chosen.summary
          chosen.knowledge chosen.memory chosen.history
          (budgeted-IsSelection converted user config.system_instructions budget
            config.max_input_tokens summary knowledge memory chosen limited b) in
      (
        dropped,
        chosen.history,
        built.message,
        c ∙ ap ok joined,
        built.messages,
        built.content,
        built.role,
        rw built.system fits,
      )
