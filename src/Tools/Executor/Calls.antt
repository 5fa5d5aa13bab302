-- ===== src/Tools/Executor/Calls.antt =====
-- When a handler runs, and with what.
use xymphony_voice.Base.{
  ◌≡◌, refl, ◌⊎◌, inl, inr, ◌↔◌, Bool, true, false, Option, none, some, ◌++◌, arith, if◌then◌else◌,
  Bool-cases, Option-cases,
}
use xymphony_voice.Base.Text.{Text, codes}
use xymphony_voice.Base.Result.{ok, err, >>=-eq-ok}
use xymphony_voice.Errors.{Raises, Exception}
use xymphony_voice.Json.{Fields}
use xymphony_voice.Conversation.{ToolCall}
use xymphony_voice.Tools.Domain.{Tool, Handler, ToolExecutionContext, ToolErrorCode, failure_result}
use xymphony_voice.Tools.Registry.{Registry, get}
use xymphony_voice.Tools.Validation.{Checks, invalid, crash, validate_tool_arguments}
use xymphony_voice.Tools.Executor.Passing.{Reads, Reads-iff, Passed}
use xymphony_voice.Tools.Executor.Building.{Passed-iff}
use xymphony_voice.Tools.Executor.{
  Interpreter, Cancellation, Kwargs, Prepared, invoke, Parsed, arguments, refused, undecodable,
  before_run, prepare, prepare_tool, check_and_build, parse_arguments, build_kwargs, failure,
}

-- What stands behind a handler's run.
pub record Licence (py : Interpreter) (registry : Registry) (call : ToolCall)
    (ctx : Option ToolExecutionContext) (cancel : Option Cancellation) (handler : Handler)
    (kwargs : Kwargs) : Type 0 where
  pub tool : Tool
  pub fields : Fields
  pub live : before_run cancel ≡ false
  pub registered : get registry call.name ≡ some tool
  pub owned : handler ≡ tool.handler
  pub parsed : Reads py call.arguments fields
  pub valid : validate_tool_arguments py.same tool.parameters fields ≡ ok tt
  pub passed : Passed tool.handler fields ctx cancel kwargs

failure-invoke :
    (call : ToolCall) (message : Text) (code : ToolErrorCode) (handler : Handler) (kwargs : Kwargs)
    → ¬ (failure call message code ≡ ok (invoke handler kwargs))
unfolding failure
failure-invoke call message code handler kwargs h =
    let (r, _, e) = >>=-eq-ok (failure_result call.id call.name message code) _ h in cc e

check-Licence :
    (py : Interpreter) (call : ToolCall) (tool : Tool) (ctx : Option ToolExecutionContext)
    (cancel : Option Cancellation) (fields : Fields) (checked : Checks (Unit {0}))
    (handler : Handler) (kwargs : Kwargs)
    → before_run cancel ≡ false
    → check_and_build py call tool ctx cancel fields checked ≡ ok (invoke handler kwargs)
    → (checked ≡ ok tt)
      × (handler ≡ tool.handler)
      × (kwargs ≡ build_kwargs tool.handler fields ctx cancel)
unfolding check_and_build
check-Licence py call tool ctx cancel fields (ok _) handler kwargs live h =
    (refl, ground arith, ground arith)
check-Licence py call tool ctx cancel fields (err (invalid f)) handler kwargs live h =
    absurd (failure-invoke _ _ _ _ _ h)
check-Licence py call tool ctx cancel fields (err crash) handler kwargs live h = cc

tool-Licence :
    (py : Interpreter) (call : ToolCall) (tool : Tool) (ctx : Option ToolExecutionContext)
    (cancel : Option Cancellation) (parsed : Parsed) (handler : Handler) (kwargs : Kwargs)
    → before_run cancel ≡ false
    → prepare_tool py call tool ctx cancel parsed ≡ ok (invoke handler kwargs)
    → (fields : Fields) × (parsed ≡ arguments fields)
      × (validate_tool_arguments py.same tool.parameters fields ≡ ok tt)
      × (handler ≡ tool.handler)
      × (kwargs ≡ build_kwargs tool.handler fields ctx cancel)
unfolding prepare_tool
tool-Licence py call tool ctx cancel (arguments fields) handler kwargs live h =
    let (a, b, c) = check-Licence py call tool ctx cancel fields _ handler kwargs live h in
    (fields, refl, a, b, c)
tool-Licence py call tool ctx cancel (refused message) handler kwargs live h =
    absurd (failure-invoke _ _ _ _ _ h)
tool-Licence py call tool ctx cancel undecodable handler kwargs live h = cc

prepare-Licence :
    (py : Interpreter) (registry : Registry) (call : ToolCall) (ctx : Option ToolExecutionContext)
    (cancel : Option Cancellation) (handler : Handler) (kwargs : Kwargs)
    → prepare py registry call ctx cancel ≡ ok (invoke handler kwargs)
    → Licence py registry call ctx cancel handler kwargs
unfolding prepare
prepare-Licence py registry call ctx cancel handler kwargs h =
    elim (Bool-cases (before_run cancel)) [
      | inl dead ↦
          let message = codes "Tool execution was cancelled before start." in
          let e : failure call message ToolErrorCode.cancelled ≡ ok (invoke handler kwargs) =
            ground arith in
          absurd (failure-invoke call message ToolErrorCode.cancelled handler kwargs e)
      | inr live ↦ elim (Option-cases (get registry call.name)) [
        | inl unknown ↦
            let message = codes "Tool '" ++ (call.name ++ codes "' is not registered.") in
            let e : failure call message ToolErrorCode.tool_not_found ≡ ok (invoke handler kwargs) =
              ground arith in
            absurd (failure-invoke call message ToolErrorCode.tool_not_found handler kwargs e)
        | inr (tool, found) ↦
            let (fields, parsed, valid, owned, passed) =
              tool-Licence py call tool ctx cancel (parse_arguments py call.arguments) handler
                kwargs live (ground arith) in
            record {
              tool = tool;
              fields = fields;
              live = live;
              registered = found;
              owned = owned;
              parsed = (Reads-iff py call.arguments fields).1 parsed;
              valid = valid;
              passed = (Passed-iff tool.handler fields ctx cancel kwargs).1 passed;
            }
      ]
    ]

Licence-prepare :
    (py : Interpreter) (registry : Registry) (call : ToolCall) (ctx : Option ToolExecutionContext)
    (cancel : Option Cancellation) (handler : Handler) (kwargs : Kwargs)
    → Licence py registry call ctx cancel handler kwargs
    → prepare py registry call ctx cancel ≡ ok (invoke handler kwargs)
unfolding prepare prepare_tool check_and_build
Licence-prepare py registry call ctx cancel handler kwargs l = ground (
  arith,
  l.live,
  l.registered,
  l.owned,
  l.valid,
  (Reads-iff py call.arguments l.fields).0 l.parsed,
  (Passed-iff l.tool.handler l.fields ctx cancel kwargs).0 l.passed,
)

-- A handler runs exactly when no cancellation is read before, the call's tool is registered, and its
-- arguments are blank, for no fields, or text that json.loads reads as an object, whose fields pass
-- the tool's schema. It is then that tool's handler, called with these fields in their order,
-- followed by the context and then the token: each where there is one, the handler's signature has
-- its name or takes any name, and no field has that name.
pub prepare_iff_Licence :
    (py : Interpreter) (registry : Registry) (call : ToolCall) (ctx : Option ToolExecutionContext)
    (cancel : Option Cancellation) (handler : Handler) (kwargs : Kwargs)
    → (prepare py registry call ctx cancel ≡ ok (invoke handler kwargs))
      ↔ Licence py registry call ctx cancel handler kwargs
prepare_iff_Licence py registry call ctx cancel handler kwargs = (
  prepare-Licence py registry call ctx cancel handler kwargs,
  Licence-prepare py registry call ctx cancel handler kwargs,
)

-- The ways in which the steps before the run can end.
abbrev pub Shape :
    Interpreter
    → Registry
    → ToolCall
    → Option ToolExecutionContext
    → Option Cancellation
    → Raises Prepared
    → Type 0
Shape py registry call ctx cancel prepared =
    ((message : Text) × (code : ToolErrorCode) × (prepared ≡ failure call message code))
    ⊎ ((prepared ≡ err Exception.crash)
        ⊎ ((handler : Handler) × (kwargs : Kwargs) × (prepared ≡ ok (invoke handler kwargs))))

check-Shape :
    (py : Interpreter) (registry : Registry) (call : ToolCall) (tool : Tool)
    (ctx : Option ToolExecutionContext) (cancel : Option Cancellation) (fields : Fields)
    (checked : Checks (Unit {0}))
    → Shape py registry call ctx cancel (check_and_build py call tool ctx cancel fields checked)
unfolding check_and_build
check-Shape py registry call tool ctx cancel fields (err (invalid fault)) =
    inl (py.describe fault, ToolErrorCode.validation_failed, refl)
check-Shape py registry call tool ctx cancel fields (err crash) = inr (inl refl)
check-Shape py registry call tool ctx cancel fields (ok _) = elim (Bool-cases (before_run cancel)) [
  | inl dead ↦
      inl
        (codes "Tool execution was cancelled.", ToolErrorCode.cancelled, rw (dead, check_and_build))
  | inr live ↦
      inr (
        inr (tool.handler, build_kwargs tool.handler fields ctx cancel, rw (live, check_and_build)))
]

tool-Shape :
    (py : Interpreter) (registry : Registry) (call : ToolCall) (tool : Tool)
    (ctx : Option ToolExecutionContext) (cancel : Option Cancellation) (parsed : Parsed)
    → Shape py registry call ctx cancel (prepare_tool py call tool ctx cancel parsed)
unfolding prepare_tool
tool-Shape py registry call tool ctx cancel (arguments fields) =
    check-Shape py registry call tool ctx cancel fields _
tool-Shape py registry call tool ctx cancel (refused message) =
    inl (message, ToolErrorCode.invalid_arguments, refl)
tool-Shape py registry call tool ctx cancel undecodable = inr (inl refl)

pub prepare-Shape :
    (py : Interpreter) (registry : Registry) (call : ToolCall) (ctx : Option ToolExecutionContext)
    (cancel : Option Cancellation)
    → Shape py registry call ctx cancel (prepare py registry call ctx cancel)
unfolding prepare
prepare-Shape py registry call ctx cancel = go (before_run cancel) (get registry call.name)
  where
    go :
        (dead : Bool) (found : Option Tool)
        → Shape py registry call ctx cancel (
            if dead
            then failure call
                (codes "Tool execution was cancelled before start.")
                ToolErrorCode.cancelled
            else elim found as (λ _. Raises Prepared) [
              | none ↦
                  failure call
                    (codes "Tool '" ++ (call.name ++ codes "' is not registered."))
                    ToolErrorCode.tool_not_found
              | some tool ↦ prepare_tool py call tool ctx cancel (parse_arguments py call.arguments)
            ])
    go true found = inl (_, _, refl)
    go false none = inl (_, _, refl)
    go false (some tool) =
        tool-Shape py registry call tool ctx cancel (parse_arguments py call.arguments)
