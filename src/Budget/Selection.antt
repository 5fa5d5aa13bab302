-- ===== src/Budget/Selection.antt =====
-- What `ContextBudgetPolicy.select_history` promises, for every estimator.
use mathlib.Core.List.{reverse-append, reverse-reverse}
use xymphony_voice.Base.{
  ℕ, ◌+◌, ◌-◌, ◌≤◌, ◌<◌, ◌≡◌, ◌∙◌, refl, sym, ap, ◌⊎◌, inl, inr, ◌↔◌, ltb, Option, List, [], ◌∷◌,
  ◌++◌, reverse, arith, Bool-cases,
}
use xymphony_voice.Base.Text.{Text}
use xymphony_voice.Base.Result.{ok, err}
use xymphony_voice.Errors.{runtime, context_budget_exceeded}
use xymphony_voice.Conversation.{LlmMessage}
use xymphony_voice.Prompt.{build_system_prompt}
use xymphony_voice.Budget.{newest_first, select_history}

module _ (estimate : Text → ℕ) where
  -- The estimated tokens of a list of messages.
  abbrev pub cost : List LlmMessage → ℕ
  cost [] = 0
  cost (m ∷ ms) = estimate m.content + cost ms

  pub cost-append : (xs ys : List LlmMessage) → cost (xs ++ ys) ≡ cost xs + cost ys
  cost-append [] ys = omega arith
  cost-append (x ∷ xs) ys = omega (arith, cost-append xs ys)

  pub cost-reverse : (xs : List LlmMessage) → cost (reverse xs) ≡ cost xs
  cost-reverse [] = refl
  cost-reverse (x ∷ xs) =
      ap cost (reverse-append (x ∷ []) xs)
      ∙ omega (arith, cost-append (reverse xs) (x ∷ []), cost-reverse xs)

  -- `older` is empty, or its newest message does not fit into what is left.
  abbrev Blocked : ℕ → List LlmMessage → List LlmMessage → Type 0
  Blocked budget kept [] = Unit
  Blocked budget kept (m ∷ ms) = budget < cost kept + estimate m.content

  record Split (budget : ℕ) (messages kept : List LlmMessage) : Type 0 where
    rest : List LlmMessage
    joined : messages ≡ kept ++ rest
    fits : cost kept ≤ budget
    blocked : Blocked budget kept rest

  Blocked-cons :
      (budget : ℕ) (m : LlmMessage) (kept rest : List LlmMessage)
      → estimate m.content ≤ budget
      → Blocked (budget - estimate m.content) kept rest
      → Blocked budget (m ∷ kept) rest
  Blocked-cons budget m kept [] h b = tt
  Blocked-cons budget m kept (x ∷ xs) h b = omega arith

  newest_first-Split :
      (budget : ℕ) (messages : List LlmMessage)
      → Split budget messages (newest_first estimate budget messages)
  unfolding newest_first
  newest_first-Split budget [] = record {
    rest = [];
    joined = refl;
    fits = omega arith;
    blocked = tt;
  }
  newest_first-Split budget (m ∷ older) = elim (Bool-cases (ltb budget (estimate m.content))) [
    | inl stop ↦
        rw stop
          (record { rest = m ∷ older; joined = refl; fits = omega arith; blocked = ground arith })
    | inr more ↦
        let s = newest_first-Split (budget - estimate m.content) older in
        let small : estimate m.content ≤ budget = ground arith in
        rw more (record {
          rest = s.rest;
          joined = ap (λ r. m ∷ r) s.joined;
          fits = omega (arith, s.fits, small);
          blocked = Blocked-cons budget m _ s.rest small s.blocked;
        })
  ]

  -- The oldest-first view: the dropped messages come first, the newest of them last.
  abbrev Dropped : ℕ → List LlmMessage → List LlmMessage → Type 0
  Dropped budget dropped selected =
      (dropped ≡ [])
      ⊎ ((older : List LlmMessage) × (m : LlmMessage) × (dropped ≡ older ++ m ∷ [])
          × (budget < cost selected + estimate m.content))

  Dropped-reverse :
      (budget : ℕ) (rest kept : List LlmMessage)
      → Blocked budget kept rest
      → Dropped budget (reverse rest) (reverse kept)
  Dropped-reverse budget [] kept b = inl refl
  Dropped-reverse budget (m ∷ ms) kept b =
      inr (reverse ms, m, reverse-append (m ∷ []) ms, omega (arith, cost-reverse kept))

  module _ (history : List LlmMessage) (user instructions : Text) (budget : ℕ)
      (summary knowledge memory : Option Text) where
    -- What the system prompt and the current user message cost together.
    abbrev pub fixed_cost : ℕ
    fixed_cost =
        estimate (build_system_prompt instructions summary knowledge memory) + estimate user

    selected_lem :
        (selected : List LlmMessage)
        → select_history estimate history user instructions budget summary knowledge memory
          ≡ ok selected
        → (fixed_cost ≤ budget)
          × (selected ≡ reverse (newest_first estimate (budget - fixed_cost) (reverse history)))
    unfolding select_history
    selected_lem selected h =
        let system = estimate (build_system_prompt instructions summary knowledge memory) in
        let same : budget - system - estimate user ≡ budget - fixed_cost = omega arith in
        (ground arith, ground (arith, same))

    widen :
        (room : ℕ) (dropped selected : List LlmMessage)
        → fixed_cost ≤ budget
        → Dropped (budget - fixed_cost) dropped selected
        → (dropped ≡ [])
          ⊎ ((older : List LlmMessage) × (m : LlmMessage) × (dropped ≡ older ++ m ∷ [])
              × (budget < fixed_cost + cost selected + estimate m.content))
    widen room dropped selected small (inl e) = inl e
    widen room dropped selected small (inr (older, m, e, h)) = inr (older, m, e, omega arith)

    -- A successful selection is a suffix of the history, in the history's order. With the system
    -- prompt and the user message it costs at most the budget, and either nothing is dropped or
    -- the newest dropped message would no longer have fitted.
    pub select_history_lem :
        (selected : List LlmMessage)
        → select_history estimate history user instructions budget summary knowledge memory
          ≡ ok selected
        → (dropped : List LlmMessage) × (history ≡ dropped ++ selected)
          × (fixed_cost + cost selected ≤ budget)
          × ((dropped ≡ [])
              ⊎ ((older : List LlmMessage) × (m : LlmMessage) × (dropped ≡ older ++ m ∷ [])
                  × (budget < fixed_cost + cost selected + estimate m.content)))
    select_history_lem selected h =
        let (small, same) = selected_lem selected h in
        let room = budget - fixed_cost in
        let s = newest_first-Split room (reverse history) in
        let d = Dropped-reverse room s.rest _ s.blocked in
        (
          reverse s.rest,
          rw same (
              sym (reverse-reverse history)
              ∙ ap reverse s.joined
              ∙ reverse-append (newest_first estimate room (reverse history)) s.rest),
          rw same
              (omega (arith, cost-reverse (newest_first estimate room (reverse history)), s.fits)),
          rw same (widen room (reverse s.rest) _ small d),
        )

    -- When the selection raises ContextBudgetExceededError.
    pub select_history_raises_iff :
        (select_history estimate history user instructions budget summary knowledge memory
          ≡ err (runtime context_budget_exceeded))
        ↔ ((budget ≡ 0) ⊎ (budget < fixed_cost))
    unfolding select_history
    select_history_raises_iff = (λ h. ground arith, λ h. ground arith)
