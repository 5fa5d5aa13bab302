-- ===== src/Tools/Executor.antt =====
-- ToolExecutor.execute of packages/tools/src/xymphony_tools/executor.py. What the method reads of
-- the interpreter is the parameter `Interpreter`; the two readings of the cancellation token around
-- the handler's run are arguments. `err` is an exception that leaves the method.
pub mod Passing
pub mod Extras
pub mod Building
pub mod Calls
pub mod Results
use xymphony_voice.Base.{
  ℕ, Bool, true, false, not, ◌&&◌, ◌||◌, Option, none, some, List, [], ◌∷◌, ◌++◌, if◌then◌else◌,
}
use xymphony_voice.Base.Text.{Text, codes, strip, is_empty, text_eq}
use xymphony_voice.Base.Result.{ok, err, ◌>>=◌}
use xymphony_voice.Errors.{Raises, Exception, task_cancelled}
use xymphony_voice.Json.{Json, null, bool, int, float, str, arr, obj, Fields, end, field}
use xymphony_voice.Conversation.{ToolCall}
use xymphony_voice.Tools.Domain.{
  Tool, Handler, Signature, Argument, json, context, cancel_token, ToolExecutionContext, RawOutput,
  nothing, text, structured, unserialisable, object, Outcome, returns, raises, ToolResult,
  ToolErrorCode, invalid_arguments, validation_failed, execution_failed, success_result,
  failure_result,
}
use xymphony_voice.Tools.Registry.{Registry, get}
use xymphony_voice.Tools.Validation.{
  Fault, invalid, crash, Rejection, Checks, validate_tool_arguments,
}

-- `json.loads`: a value, a JSONDecodeError with its message, or another exception.
pub data Loaded : Type 0 where
  value : Json → Loaded
  malformed : Text → Loaded
  broken : Loaded

-- `json.loads`, `==` on JSON values, and the message that a validation error prints.
pub record Interpreter : Type 0 where
  pub loads : Text → Loaded
  pub same : Json → Json → Bool
  pub describe : Fault → Text

-- `cancel.cancelled` before the handler runs, and after.
pub record Cancellation : Type 0 where
  pub before : Bool
  pub after : Bool

abbrev pub Kwargs : Type 0
Kwargs = List (Text × Argument)

-- A result that is decided before the handler, or the call of the handler.
pub data Prepared : Type 0 where
  settled : ToolResult → Prepared
  invoke : Handler → Kwargs → Prepared

abbrev pub before_run : Option Cancellation → Bool
before_run none = false
before_run (some c) = c.before

abbrev pub after_run : Option Cancellation → Bool
after_run none = false
after_run (some c) = c.after

unfoldable pub failure : ToolCall → Text → ToolErrorCode → Raises Prepared
unfolding failure_result
failure call error code = failure_result call.id call.name error code >>= λ r. ok (settled r)

-- `type(value).__name__`
type_name : Json → Text
type_name null = codes "NoneType"
type_name (bool _) = codes "bool"
type_name (int _) = codes "int"
type_name (float _) = codes "float"
type_name (str _) = codes "str"
type_name (arr _) = codes "list"
type_name (obj _) = codes "dict"

-- Step 3: the arguments as a dict, or the result that refuses them.
pub data Parsed : Type 0 where
  arguments : Fields → Parsed
  refused : Text → Parsed
  undecodable : Parsed

unfoldable as_object : Loaded → Parsed
unfolding type_name
as_object (value (obj fields)) = arguments fields
as_object (value v) =
    refused (codes "Tool arguments must be a JSON object, got " ++ (type_name v ++ codes "."))
as_object (malformed message) = refused (codes "Malformed JSON arguments: " ++ message)
as_object broken = undecodable

unfoldable pub parse_arguments : Interpreter → Text → Parsed
unfolding as_object strip
parse_arguments py raw =
    if is_empty (strip raw) then arguments end else as_object (py.loads (strip raw))

unfoldable pub kwargs_of : Fields → Kwargs
kwargs_of end = []
kwargs_of (field key v rest) = (key, json v) ∷ kwargs_of rest

-- `key in kwargs`
unfoldable pub has_key : Text → Kwargs → Bool
has_key key [] = false
has_key key ((k, _) ∷ rest) = text_eq k key || has_key key rest

unfoldable pub mem_text : Text → List Text → Bool
mem_text key [] = false
mem_text key (k ∷ rest) = text_eq k key || mem_text key rest

-- `if extra is not None and (key in param_names or has_var_keyword): if key not in kwargs: …`
unfoldable add_extra : Signature → Text → Option Argument → Kwargs → Kwargs
unfolding has_key mem_text
add_extra signature key none kwargs = kwargs
add_extra signature key (some v) kwargs =
    if mem_text key signature.names || signature.var_keyword
    then if has_key key kwargs then kwargs else kwargs ++ (key, v) ∷ []
    else kwargs

abbrev pub context_argument : Option ToolExecutionContext → Option Argument
context_argument none = none
context_argument (some c) = some (context c)

abbrev pub cancel_argument : Option Cancellation → Option Argument
cancel_argument none = none
cancel_argument (some _) = some cancel_token

-- Step 6.
unfoldable pub build_kwargs :
    Handler → Fields → Option ToolExecutionContext → Option Cancellation → Kwargs
unfolding kwargs_of add_extra
build_kwargs handler fields ctx cancel = elim handler.signature [
  | none ↦ kwargs_of fields
  | some signature ↦
      add_extra signature (codes "cancel") (cancel_argument cancel)
        (add_extra signature (codes "context") (context_argument ctx) (kwargs_of fields))
]

-- Step 4 and the second reading of the token, then step 6.
check_and_build :
    Interpreter
    → ToolCall
    → Tool
    → Option ToolExecutionContext
    → Option Cancellation
    → Fields
    → Checks (Unit {0})
    → Raises Prepared
check_and_build py call tool ctx cancel fields (err (invalid fault)) =
    failure call (py.describe fault) validation_failed
check_and_build py call tool ctx cancel fields (err crash) = err Exception.crash
check_and_build py call tool ctx cancel fields (ok _) =
    if before_run cancel
    then failure call (codes "Tool execution was cancelled.") ToolErrorCode.cancelled
    else ok (invoke tool.handler (build_kwargs tool.handler fields ctx cancel))

prepare_tool :
    Interpreter
    → ToolCall
    → Tool
    → Option ToolExecutionContext
    → Option Cancellation
    → Parsed
    → Raises Prepared
unfolding check_and_build
prepare_tool py call tool ctx cancel (refused message) = failure call message invalid_arguments
prepare_tool py call tool ctx cancel undecodable = err Exception.crash
prepare_tool py call tool ctx cancel (arguments fields) =
    check_and_build py call tool ctx cancel fields
      (validate_tool_arguments py.same tool.parameters fields)

-- Steps 1 to 6.
unfoldable pub prepare :
    Interpreter
    → Registry
    → ToolCall
    → Option ToolExecutionContext
    → Option Cancellation
    → Raises Prepared
unfolding prepare_tool
prepare py registry call ctx cancel =
    if before_run cancel
    then failure call (codes "Tool execution was cancelled before start.") ToolErrorCode.cancelled
    else elim (get registry call.name) [
      | none ↦
          failure call (codes "Tool '" ++ (call.name ++ codes "' is not registered."))
            ToolErrorCode.tool_not_found
      | some tool ↦ prepare_tool py call tool ctx cancel (parse_arguments py call.arguments)
    ]

-- Step 9.
unfoldable pub normalise : ToolCall → RawOutput → Raises ToolResult
unfolding success_result
normalise call nothing = success_result call.id call.name [] none
normalise call (text t) = success_result call.id call.name t none
normalise call (structured dumped (some v)) = success_result call.id call.name dumped (some v)
normalise call (structured dumped none) = err Exception.validation_error
normalise call (unserialisable shown) = success_result call.id call.name shown none
normalise call (object shown) = success_result call.id call.name shown none

-- Steps 7 to 9, from what the handler did.
unfoldable pub finish : ToolCall → Outcome → Option Cancellation → Raises ToolResult
unfolding failure_result normalise
finish call (raises message) cancel = failure_result call.id call.name message execution_failed
finish call Outcome.cancelled cancel = err task_cancelled
finish call (returns raw) cancel =
    if after_run cancel
    then failure_result call.id call.name (codes "Tool execution was cancelled.")
        ToolErrorCode.cancelled
    else normalise call raw

finish_prepared : ToolCall → Option Cancellation → Prepared → Raises ToolResult
finish_prepared call cancel (settled r) = ok r
finish_prepared call cancel (invoke handler kwargs) = finish call (handler.run kwargs) cancel

unfoldable pub execute :
    Interpreter
    → Registry
    → ToolCall
    → Option ToolExecutionContext
    → Option Cancellation
    → Raises ToolResult
unfolding finish_prepared
execute py registry call ctx cancel =
    prepare py registry call ctx cancel >>= finish_prepared call cancel
