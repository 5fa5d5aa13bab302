-- ===== src/Tools/Executor/Results.antt =====
-- What a tool call returns, and which exceptions leave it.
use xymphony_voice.Base.{
  ◌≤◌, ◌<◌, ◌≡◌, refl, ◌⊎◌, inl, inr, ◌↔◌, true, false, Option, none, some, [], arith, length, leb,
  Bool-cases, ◌∙◌, sym, subst,
}
use xymphony_voice.Base.Text.{Text, codes}
use xymphony_voice.Base.Result.{ok, err, ◌>>=◌, >>=-eq-ok}
use xymphony_voice.Errors.{Exception}
use xymphony_voice.Json.{Json}
use xymphony_voice.Conversation.{ToolCall}
use xymphony_voice.Tools.Domain.{
  Handler, ToolExecutionContext, RawOutput, nothing, text, structured, unserialisable, object,
  Outcome, returns, raises, ToolResult, ToolErrorCode, success_result, failure_result,
}
use xymphony_voice.Tools.Registry.{Registry}
use xymphony_voice.Tools.Executor.{
  Interpreter, Cancellation, Kwargs, Prepared, settled, invoke, after_run, failure, finish,
  finish_prepared, normalise, execute,
}
use xymphony_voice.Tools.Executor.Calls.{Licence, prepare_iff_Licence, prepare-Shape}

-- The text that a successful result carries.
abbrev pub output_text : RawOutput → Text
output_text nothing = []
output_text (text t) = t
output_text (structured dumped _) = dumped
output_text (unserialisable shown) = shown
output_text (object shown) = shown

abbrev pub IsPlainValue : RawOutput → Type 0
IsPlainValue (structured _ none) = ⊥
IsPlainValue _ = Unit

-- The identifier and the name of a call are within the limits of LLMToolCall.
pub record IsValidCall (call : ToolCall) : Type 0 where
  pub id_low : 1 ≤ length call.id
  pub id_high : length call.id ≤ 128
  pub name_low : 1 ≤ length call.name
  pub name_high : length call.name ≤ 128

success_lem :
    (call : ToolCall) (output : Text) (value : Option Json)
    → IsValidCall call
    → ((length output ≤ 32000)
        × (r : ToolResult) × (success_result call.id call.name output value ≡ ok r)
        × (r.success ≡ true)
        × (r.output ≡ output))
      ⊎ ((32000 < length output)
          × (success_result call.id call.name output value ≡ err Exception.validation_error))
unfolding success_result
success_lem call output value v = elim (Bool-cases (leb (length output) 32000)) [
  | inl small ↦ inl (
    ground arith,
    record {
      tool_call_id = call.id;
      tool_name = call.name;
      success = true;
      output = output;
      result = value;
      error = none;
      error_code = none;
    },
    ground arith,
    refl,
    refl,
  )
  | inr large ↦ inr (ground arith, ground arith)
]

abbrev value_of : RawOutput → Option Json
value_of (structured _ v) = v
value_of _ = none

normalise_lem :
    (call : ToolCall) (raw : RawOutput)
    → IsPlainValue raw
    → normalise call raw ≡ success_result call.id call.name (output_text raw) (value_of raw)
unfolding normalise
normalise_lem call nothing plain = refl
normalise_lem call (text t) plain = refl
normalise_lem call (structured d none) plain = absurd plain
normalise_lem call (structured d (some v)) plain = refl
normalise_lem call (unserialisable t) plain = refl
normalise_lem call (object t) plain = refl

normalise-plain :
    (call : ToolCall) (raw : RawOutput) (r : ToolResult)
    → normalise call raw ≡ ok r
    → IsPlainValue raw
unfolding normalise
normalise-plain call (structured d none) r h = cc
normalise-plain call (structured d (some v)) r h = tt
normalise-plain call nothing r h = tt
normalise-plain call (text t) r h = tt
normalise-plain call (unserialisable t) r h = tt
normalise-plain call (object t) r h = tt

normalise-success :
    (call : ToolCall) (raw : RawOutput) (r : ToolResult)
    → IsValidCall call
    → normalise call raw ≡ ok r
    → IsPlainValue raw × (length (output_text raw) ≤ 32000) × (r.output ≡ output_text raw)
normalise-success call raw r v h =
    let plain = normalise-plain call raw r h in
    elim (success_lem call (output_text raw) (value_of raw) v) [
      | inl (small, r', made, _, same) ↦
          (plain, small, ground (arith, normalise_lem call raw plain))
      | inr (large, raised) ↦ absurd (ground (arith, normalise_lem call raw plain))
    ]

success-normalise :
    (call : ToolCall) (raw : RawOutput)
    → IsValidCall call
    → IsPlainValue raw
    → length (output_text raw) ≤ 32000
    → (r : ToolResult) × (normalise call raw ≡ ok r) × (r.success ≡ true)
success-normalise call raw v plain small =
    elim (success_lem call (output_text raw) (value_of raw) v) [
      | inl (_, r, made, good, _) ↦ (r, normalise_lem call raw plain ∙ made, good)
      | inr (large, _) ↦ absurd (omega arith)
    ]

normalise-oversized :
    (call : ToolCall) (raw : RawOutput)
    → IsValidCall call
    → IsPlainValue raw
    → 32000 < length (output_text raw)
    → normalise call raw ≡ err Exception.validation_error
normalise-oversized call raw v plain large =
    elim (success_lem call (output_text raw) (value_of raw) v) [
      | inl (small, _, _, _, _) ↦ absurd (omega arith)
      | inr (_, raised) ↦ normalise_lem call raw plain ∙ raised
    ]

failure_result-success :
    (id name message : Text) (code : ToolErrorCode) (r : ToolResult)
    → failure_result id name message code ≡ ok r
    → r.success ≡ false
unfolding failure_result
failure_result-success id name message code r h = ground arith

finish-success :
    (call : ToolCall) (outcome : Outcome) (cancel : Option Cancellation) (r : ToolResult)
    → finish call outcome cancel ≡ ok r
    → r.success ≡ true
    → (raw : RawOutput) × (outcome ≡ returns raw)
      × (after_run cancel ≡ false)
      × (normalise call raw ≡ ok r)
unfolding finish
finish-success call (raises message) cancel r h good = absurd (
    ground
      (arith, failure_result-success call.id call.name message ToolErrorCode.execution_failed r))
finish-success call Outcome.cancelled cancel r h good = cc
finish-success call (returns raw) cancel r h good = elim (Bool-cases (after_run cancel)) [
  | inl dead ↦ absurd (
      ground (
        arith,
        failure_result-success call.id call.name (codes "Tool execution was cancelled.")
            ToolErrorCode.cancelled r,
      ))
  | inr live ↦ (raw, refl, live, ground arith)
]

-- Everything that a successful result needs, and all that it needs.
pub record Success (py : Interpreter) (registry : Registry) (call : ToolCall)
    (ctx : Option ToolExecutionContext) (cancel : Option Cancellation) (output : Text)
    : Type 0 where
  pub handler : Handler
  pub kwargs : Kwargs
  pub raw : RawOutput
  pub licence : Licence py registry call ctx cancel handler kwargs
  pub returned : handler.run kwargs ≡ returns raw
  pub live : after_run cancel ≡ false
  pub plain : IsPlainValue raw
  pub small : length (output_text raw) ≤ 32000
  pub shown : output ≡ output_text raw

failure-success :
    (call : ToolCall) (message : Text) (code : ToolErrorCode) (cancel : Option Cancellation)
    (r : ToolResult)
    → (failure call message code >>= finish_prepared call cancel) ≡ ok r
    → r.success ≡ false
unfolding failure finish_prepared
failure-success call message code cancel r h =
    let (p, e, done) = >>=-eq-ok (failure call message code) (finish_prepared call cancel) h in
    let (r', made, same) = >>=-eq-ok (failure_result call.id call.name message code) _ e in
    let good = failure_result-success call.id call.name message code r' made in
    let same' : settled r' ≡ p = cc in settled-eq p r' r same' done good
  where
    settled-eq :
        (p : Prepared) (r' r : ToolResult)
        → settled r' ≡ p
        → finish_prepared call cancel p ≡ ok r
        → r'.success ≡ false
        → r.success ≡ false
    settled-eq (settled q) r' r same done good = ground arith
    settled-eq (invoke h k) r' r same done good = cc

execute-Success :
    (py : Interpreter) (registry : Registry) (call : ToolCall) (ctx : Option ToolExecutionContext)
    (cancel : Option Cancellation) (r : ToolResult)
    → IsValidCall call
    → execute py registry call ctx cancel ≡ ok r
    → r.success ≡ true
    → Success py registry call ctx cancel r.output
unfolding execute finish_prepared
execute-Success py registry call ctx cancel r v h good =
    elim (prepare-Shape py registry call ctx cancel) [
      | inl (message, code, e) ↦
          absurd (ground (arith, failure-success call message code cancel r (rw e at h)))
      | inr (inl e) ↦ absurd (ground arith)
      | inr (inr (handler, kwargs, e)) ↦
          let (raw, returned, live, done) =
            finish-success call (handler.run kwargs) cancel r (ground arith) good in
          let (plain, small, same) = normalise-success call raw r v done in
          record {
            handler = handler;
            kwargs = kwargs;
            raw = raw;
            licence = (prepare_iff_Licence py registry call ctx cancel handler kwargs).0 e;
            returned = returned;
            live = live;
            plain = plain;
            small = small;
            shown = same;
          }
    ]

Success-execute :
    (py : Interpreter) (registry : Registry) (call : ToolCall) (ctx : Option ToolExecutionContext)
    (cancel : Option Cancellation) (output : Text)
    → IsValidCall call
    → Success py registry call ctx cancel output
    → (r : ToolResult) × (execute py registry call ctx cancel ≡ ok r)
      × (r.success ≡ true)
      × (r.output ≡ output)
unfolding execute finish finish_prepared
Success-execute py registry call ctx cancel output v s =
    let (r, made, good) = success-normalise call s.raw v s.plain s.small in
    let (_, _, same) = normalise-success call s.raw r v made in
    let ready = (prepare_iff_Licence py registry call ctx cancel s.handler s.kwargs).1 s.licence in
    (r, ground (arith, ready, s.returned, s.live, made), good, same ∙ sym s.shown)

-- For a call whose identifier and name have 1 to 128 characters: a result with `success` set and a
-- given output is returned exactly when the handler was allowed to run, it returned, no cancellation
-- was read after, what it returned is not a structured value outside JsonValue, its text has at most
-- 32,000 characters, and the output is that text.
pub execute_succeeds_iff :
    (py : Interpreter) (registry : Registry) (call : ToolCall) (ctx : Option ToolExecutionContext)
    (cancel : Option Cancellation) (output : Text)
    → IsValidCall call
    → ((r : ToolResult) × (execute py registry call ctx cancel ≡ ok r)
        × (r.success ≡ true)
        × (r.output ≡ output))
      ↔ Success py registry call ctx cancel output
execute_succeeds_iff py registry call ctx cancel output v = (
  λ (r, h, good, shown).
      subst (Success py registry call ctx cancel) shown
        (execute-Success py registry call ctx cancel r v h good),
  Success-execute py registry call ctx cancel output v,
)

-- For a call whose identifier and name have 1 to 128 characters, a tool that returns a text, or a
-- value other than a structured one outside JsonValue, whose output text has more than 32,000
-- characters makes `execute` raise pydantic's ValidationError, although the handler was allowed to
-- run, returned, and nothing was cancelled.
pub oversized_output_raises :
    (py : Interpreter) (registry : Registry) (call : ToolCall) (ctx : Option ToolExecutionContext)
    (cancel : Option Cancellation) (handler : Handler) (kwargs : Kwargs) (raw : RawOutput)
    → IsValidCall call
    → Licence py registry call ctx cancel handler kwargs
    → handler.run kwargs ≡ returns raw
    → after_run cancel ≡ false
    → IsPlainValue raw
    → 32000 < length (output_text raw)
    → execute py registry call ctx cancel ≡ err Exception.validation_error
unfolding execute finish
oversized_output_raises py registry call ctx cancel handler kwargs raw v l ran live plain large =
    ground (
      arith,
      (prepare_iff_Licence py registry call ctx cancel handler kwargs).1 l,
      normalise-oversized call raw v plain large,
    )
