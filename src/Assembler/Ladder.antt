-- ===== src/Assembler/Ladder.antt =====
-- The nested handlers of `assemble` as a ladder of four attempts.
use xymphony_voice.Base.{
  ℕ, ◌≤◌, ◌<◌, ◌+◌, ◌≡◌, refl, ◌⊎◌, inl, inr, ◌↔◌, Option, none, some, List, length, arith,
}
use xymphony_voice.Base.Text.{Text}
use xymphony_voice.Base.Result.{ok, err}
use xymphony_voice.Errors.{Raises, runtime, context_budget_exceeded, catch_budget}
use xymphony_voice.Conversation.{LlmMessage}
use xymphony_voice.Prompt.{build_system_prompt}
use xymphony_voice.Prompt.Length.{bare_prompt_le}
use xymphony_voice.Budget.{select_history}
use xymphony_voice.Budget.Selection.{select_history_raises_iff}
use xymphony_voice.Assembler.{Selected, attempt, soft_select}

abbrev pub exceeded : Raises Selected
exceeded = err (runtime context_budget_exceeded)

module _ (estimate : Text → ℕ) (history : List LlmMessage) (user instructions : Text)
    (budget : ℕ) where
  -- All sections, then without the memory, then without the knowledge, then without the summary.
  abbrev pub first_fit : Option Text → Option Text → Option Text → Raises Selected
  first_fit summary knowledge memory =
      let select = attempt estimate history user instructions budget in
      catch_budget (select summary knowledge memory) (
        catch_budget (select summary knowledge none)
          (catch_budget (select summary none none) (select none none none)))

  attempt-cases :
      (summary knowledge memory : Option Text)
      → (attempt estimate history user instructions budget summary knowledge memory ≡ exceeded)
        ⊎ ((chosen : Selected) × (attempt estimate history user instructions budget summary
                knowledge memory
              ≡ ok chosen))
  attempt-cases summary knowledge memory =
      split (select_history estimate history user instructions budget summary knowledge memory) refl
    where
      split :
          (r : Raises (List LlmMessage))
          → select_history estimate history user instructions budget summary knowledge memory ≡ r
          → (attempt estimate history user instructions budget summary knowledge memory ≡ exceeded)
            ⊎ ((chosen : Selected) × (attempt estimate history user instructions budget summary
                    knowledge memory
                  ≡ ok chosen))
      split (ok h) e = inr (
        record { history = h; summary = summary; knowledge = knowledge; memory = memory },
        unfold attempt in rw e,
      )
      split (err x) e = inl (unfold attempt select_history in ground arith)

  -- The nested handlers are the ladder: memory is dropped first, then knowledge, then the summary,
  -- and the first selection that fits is taken, with the sections that it left in.
  pub soft_select-eq-first_fit :
      (summary knowledge memory : Option Text)
      → soft_select estimate history user instructions budget summary knowledge memory
        ≡ first_fit summary knowledge memory
  unfolding soft_select
  soft_select-eq-first_fit none none none = ground (arith, attempt-cases none none none)
  soft_select-eq-first_fit none none (some m) =
      ground (arith, attempt-cases none none (some m), attempt-cases none none none)
  soft_select-eq-first_fit none (some k) none =
      ground (arith, attempt-cases none (some k) none, attempt-cases none none none)
  soft_select-eq-first_fit none (some k) (some m) = ground (
    arith,
    attempt-cases none (some k) (some m),
    attempt-cases none (some k) none,
    attempt-cases none none none,
  )
  soft_select-eq-first_fit (some s) none none =
      ground (arith, attempt-cases (some s) none none, attempt-cases none none none)
  soft_select-eq-first_fit (some s) none (some m) = ground (
    arith,
    attempt-cases (some s) none (some m),
    attempt-cases (some s) none none,
    attempt-cases none none none,
  )
  soft_select-eq-first_fit (some s) (some k) none = ground (
    arith,
    attempt-cases (some s) (some k) none,
    attempt-cases (some s) none none,
    attempt-cases none none none,
  )
  soft_select-eq-first_fit (some s) (some k) (some m) = ground (
    arith,
    attempt-cases (some s) (some k) (some m),
    attempt-cases (some s) (some k) none,
    attempt-cases (some s) none none,
    attempt-cases none none none,
  )

  attempt-raises :
      (summary knowledge memory : Option Text)
      → (attempt estimate history user instructions budget summary knowledge memory ≡ exceeded) ↔ (
          select_history estimate history user instructions budget summary knowledge memory
          ≡ err (runtime context_budget_exceeded))
  unfolding attempt
  attempt-raises summary knowledge memory = (λ h. ground arith, λ h. ground arith)

  -- With an estimator that never charges a longer text less, the assembler's selection raises
  -- ContextBudgetExceededError exactly when the budget is 0 or the agent's instructions, without
  -- any optional section, and the user message cost more than it: sections never cause a refusal.
  pub soft_select_raises_iff :
      (summary knowledge memory : Option Text)
      → ((s t : Text) → length s ≤ length t → estimate s ≤ estimate t)
      → (soft_select estimate history user instructions budget summary knowledge memory ≡ exceeded)
        ↔ ((budget ≡ 0)
            ⊎ (budget < estimate (build_system_prompt instructions none none none) + estimate user))
  soft_select_raises_iff summary knowledge memory mono = (forth, back)
    where
      bare : Text
      bare = build_system_prompt instructions none none none

      forth :
          soft_select estimate history user instructions budget summary knowledge memory ≡ exceeded
          → (budget ≡ 0) ⊎ (budget < estimate bare + estimate user)
      forth h =
          (select_history_raises_iff estimate history user instructions budget none none none).0 (
            (attempt-raises none none none).0 (
              unfold catch_budget in
              ground (arith, soft_select-eq-first_fit summary knowledge memory)))

      grows :
          (s k m : Option Text)
          → (budget ≡ 0) ⊎ (budget < estimate bare + estimate user)
          → attempt estimate history user instructions budget s k m ≡ exceeded
      grows s k m h = (attempt-raises s k m).1 (
          (select_history_raises_iff estimate history user instructions budget s k m).1 (
            omega (
              arith,
              h,
              mono bare (build_system_prompt instructions s k m)
                  (bare_prompt_le instructions s k m),
            )))

      back :
          (budget ≡ 0) ⊎ (budget < estimate bare + estimate user)
          → soft_select estimate history user instructions budget summary knowledge memory
            ≡ exceeded
      back h =
          unfold catch_budget in
          ground (
            arith,
            soft_select-eq-first_fit summary knowledge memory,
            grows summary knowledge memory h,
            grows summary knowledge none h,
            grows summary none none h,
            grows none none none h,
          )
