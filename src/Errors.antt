-- ===== src/Errors.antt =====
-- The exceptions that the modelled code raises or catches:
-- packages/agent-runtime/src/xymphony_runtime/errors.py,
-- packages/contracts/src/xymphony_contracts/provider.py, packages/tools/src/xymphony_tools/errors.py
-- and pydantic's ValidationError.
use xymphony_voice.Base.{Bool, ◌≡◌, ◌⊎◌, inl, inr}
use xymphony_voice.Base.Text.{Text}
use xymphony_voice.Base.Result.{Result, ok, err}

pub data RuntimeError : Type 0 where
  invalid_runtime_input invalid_state_transition runtime_not_running : RuntimeError
  stale_turn_event context_budget_exceeded : RuntimeError

pub data ProviderErrorCode : Type 0 where
  timeout cancelled rate_limit auth invalid_request provider unknown : ProviderErrorCode

pub record ProviderError : Type 0 where
  pub code : ProviderErrorCode
  pub message : Text
  pub provider_key : Text
  pub retryable : Bool

-- `crash` is any other exception, `task_cancelled` is asyncio.CancelledError.
pub data Exception : Type 0 where
  runtime : RuntimeError → Exception
  provider_error : ProviderError → Exception
  tool_not_found : Text → Exception
  tool_already_registered : Text → Exception
  value_error validation_error crash task_cancelled : Exception

abbrev pub Raises : Type 0 → Type 0
Raises A = Result Exception A

-- `try: a; except ContextBudgetExceededError: b`
unfoldable pub catch_budget : {A : Type 0} → Raises A → Raises A → Raises A
catch_budget (err (runtime context_budget_exceeded)) b = b
catch_budget a b = a

pub catch_budget-eq-ok :
    {A : Type 0} (a b : Raises A) {r : A} → catch_budget a b ≡ ok r → (a ≡ ok r) ⊎ (b ≡ ok r)
unfolding catch_budget
catch_budget-eq-ok (ok x) b h = inl h
catch_budget-eq-ok (err (runtime context_budget_exceeded)) b h = inr h
catch_budget-eq-ok (err e) b h = inl h
