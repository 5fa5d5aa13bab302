-- ===== src/Examples/ToolCalls.antt =====
-- Calls of packages/tools/src/xymphony_tools: a tool `echo` that requires a string argument `text`.
use xymphony_voice.Base.{
  ℕ, ◌<◌, ◌≡◌, ◌↔◌, ◌⊎◌, refl, true, false, none, some, List, [], ◌∷◌, zero, suc, arith, length,
  if◌then◌else◌,
}
use xymphony_voice.Base.Text.{Text, codes, text_eq}
use xymphony_voice.Base.Result.{ok, err}
use xymphony_voice.Errors.{Exception, tool_already_registered}
use xymphony_voice.Json.{
  Json, str, obj, arr, Fields, field, end, cons, nil, get as field_of, has as has_field,
}
use xymphony_voice.Conversation.{ToolCall}
use xymphony_voice.Tools.Domain.{Tool, Handler, ToolResult, returns, text}
use xymphony_voice.Tools.Registry.{Registry, Binding, get, has, register, build_agent_tool_registry}
use xymphony_voice.Tools.Registry.Agents.{
  IsKeyed, bound, register_lem, build_agent_tool_registry_lem,
}
use xymphony_voice.Tools.Validation.{
  validate_tool_arguments, check_required, check_arguments, check_argument, matches_type,
  properties_of, all_strings,
}
use xymphony_voice.Tools.Validation.Spec.{IsPlain, Conforms, validate_iff_Conforms}
use xymphony_voice.Tools.Executor.{
  Interpreter, value, invoke, prepare, execute, build_kwargs, parse_arguments,
}
use xymphony_voice.Tools.Domain.{ToolExecutionContext, json, context}
use xymphony_voice.Tools.Executor.Passing.{Reads-iff}
use xymphony_voice.Tools.Executor.Building.{Passed-iff}
use xymphony_voice.Tools.Executor.Calls.{Licence, prepare_iff_Licence}
use xymphony_voice.Tools.Executor.Results.{
  IsValidCall, Success, execute_succeeds_iff, oversized_output_raises,
}

-- `{"type": "object", "properties": {"text": {"type": "string"}}, "required": ["text"],
-- "additionalProperties": false}`, without the outer `type`
abbrev schema : Fields
schema =
    field (codes "properties")
      (obj (field (codes "text") (obj (field (codes "type") (str (codes "string")) end)) end))
      (field (codes "required") (arr (cons (str (codes "text")) nil))
        (field (codes "additionalProperties") (Json.bool false) end))

abbrev given : Fields
given = field (codes "text") (str (codes "hi")) end

-- As many letters A as the number says.
pub repeated : ℕ → Text
repeated zero = []
repeated (suc n) = 65 ∷ repeated n

length-repeated : (n : ℕ) → length (repeated n) ≡ n
unfolding repeated
length-repeated zero = refl
length-repeated (suc n) = omega (arith, length-repeated n)

abbrev prints : ℕ → Handler
prints n = record {
  signature = some (record { names = codes "text" ∷ []; var_keyword = false });
  run = λ kwargs. returns (text (repeated n));
}

abbrev tool : ℕ → Tool
tool n = record {
  name = codes "echo";
  description = codes "Repeats a letter.";
  parameters = schema;
  handler = prints n;
}

abbrev catalog : ℕ → Registry
catalog n = (codes "echo", tool n) ∷ []

-- A loader that knows one document; equality and messages are not reached by these calls.
abbrev python : Interpreter
python = record { loads = λ s. value (obj given); same = λ a b. false; describe = λ fault. [] }

abbrev call : ToolCall
call = record { id = codes "call_1"; name = codes "echo"; arguments = codes "{}" }

call-IsValidCall : IsValidCall call
call-IsValidCall = record {
  id_low = omega arith;
  id_high = omega arith;
  name_low = omega arith;
  name_high = omega arith;
}

given_valid : (n : ℕ) → validate_tool_arguments (λ a b. false) (tool n).parameters given ≡ ok tt
unfolding validate_tool_arguments field_of text_eq check_required has_field check_arguments
    check_argument matches_type
given_valid n = refl

licence :
    (n : ℕ)
    → Licence python (catalog n) call none none (prints n) (build_kwargs (prints n) given none none)
unfolding get parse_arguments text_eq
licence n = record {
  tool = tool n;
  fields = given;
  live = refl;
  registered = refl;
  owned = refl;
  parsed = (Reads-iff python call.arguments given).1 refl;
  valid = given_valid n;
  passed = (Passed-iff (prints n) given none none (build_kwargs (prints n) given none none)).1 refl;
}

schema-IsPlain : IsPlain schema
unfolding field_of text_eq properties_of all_strings
schema-IsPlain = record { required = refl; properties = (tt, tt) }

catalog-IsKeyed : IsKeyed (catalog 3)
unfolding has get
catalog-IsKeyed = (refl, refl, tt)

-- A handler that asks for the context, and a context.
abbrev asks_context : Handler
asks_context = record (prints 3) {
  signature = some (record { names = codes "text" ∷ codes "context" ∷ []; var_keyword = false });
}

abbrev asking : Registry
asking = (codes "echo", record (tool 3) { handler = asks_context }) ∷ []

abbrev surroundings : ToolExecutionContext
surroundings = record { tool_call_id = codes "call_1"; session_id = none }

with_context :
    build_kwargs asks_context given (some surroundings) none
    ≡ (codes "text", json (str (codes "hi"))) ∷ (codes "context", context surroundings) ∷ []
unfolding build_kwargs text_eq
with_context = refl

prepare_iff_Licence_example :
    (prepare python asking call (some surroundings) none
      ≡ ok (invoke asks_context (build_kwargs asks_context given (some surroundings) none)))
    ↔ Licence python asking call
        (some surroundings)
        none
        asks_context
        (build_kwargs asks_context given (some surroundings) none)
prepare_iff_Licence_example =
    prepare_iff_Licence python asking call (some surroundings) none asks_context
      (build_kwargs asks_context given (some surroundings) none)

execute_succeeds_iff_example :
    ((r : ToolResult) × (execute python (catalog 3) call none none ≡ ok r)
      × (r.success ≡ true)
      × (r.output ≡ repeated 3))
    ↔ Success python (catalog 3) call none none (repeated 3)
execute_succeeds_iff_example =
    execute_succeeds_iff python (catalog 3) call none none (repeated 3) call-IsValidCall

large : 32000 < length (repeated 32001)
large = rw (length-repeated 32001) (omega arith)

oversized_output_raises_example :
    execute python (catalog 32001) call none none ≡ err Exception.validation_error
oversized_output_raises_example =
    oversized_output_raises python (catalog 32001) call none none (prints 32001)
      (build_kwargs (prints 32001) given none none) (text (repeated 32001)) call-IsValidCall
      (licence 32001) refl refl tt large

validate_iff_Conforms_example :
    (validate_tool_arguments (λ a b. false) schema given ≡ ok tt)
    ↔ Conforms (λ a b. false) schema given
validate_iff_Conforms_example = validate_iff_Conforms (λ a b. false) schema given schema-IsPlain

register_lem_example :
    ((has (catalog 3) (tool 4).name ≡ true)
      × (register (catalog 3) (tool 4) ≡ err (tool_already_registered (tool 4).name)))
    ⊎ ((more : Registry) × (has (catalog 3) (tool 4).name ≡ false)
        × (register (catalog 3) (tool 4) ≡ ok more)
        × IsKeyed more
        × ((name : Text)
            → get more name
              ≡ (if text_eq (tool 4).name name then some (tool 4) else get (catalog 3) name)))
register_lem_example = register_lem (catalog 3) (tool 4) catalog-IsKeyed

abbrev bindings : List Binding
bindings =
    record { tool_name = codes "echo"; enabled = true }
    ∷ record { tool_name = codes "other"; enabled = true }
    ∷ []

built : build_agent_tool_registry (catalog 3) bindings false ≡ ok (catalog 3)
unfolding build_agent_tool_registry get register text_eq
built = refl

build_agent_tool_registry_lem_example :
    IsKeyed (catalog 3)
    × ((name : Text)
        → get (catalog 3) name ≡ (if bound name bindings then get (catalog 3) name else none))
build_agent_tool_registry_lem_example =
    build_agent_tool_registry_lem (catalog 3) bindings false (catalog 3) catalog-IsKeyed built
