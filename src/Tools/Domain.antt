-- ===== src/Tools/Domain.antt =====
-- packages/tools/src/xymphony_tools/domain.py, and the result of
-- packages/contracts/src/xymphony_contracts/tools.py. A handler is code of the application: it is
-- a function from its keyword arguments to what the call does.
use xymphony_voice.Base.{
  leb, ltb, Bool, true, false, ◌&&◌, Option, none, some, List, ◌++◌, length, if◌then◌else◌,
}
use xymphony_voice.Base.Text.{Text, codes, strip, is_empty}
use xymphony_voice.Base.Result.{ok, err}
use xymphony_voice.Errors.{Raises, value_error, validation_error}
use xymphony_voice.Json.{Json, str, obj, Fields, end, field}
use xymphony_voice.Assembler.{ToolDefinition}

pub record ToolExecutionContext : Type 0 where
  pub tool_call_id : Text
  pub session_id : Option Text

-- The value of a keyword argument.
pub data Argument : Type 0 where
  json : Json → Argument
  context : ToolExecutionContext → Argument
  cancel_token : Argument

-- What a handler returns: None; a str; a dict, list, int, float or bool with the text that
-- `json.dumps` gives and its value if that is a JsonValue; one of those that `json.dumps` refuses,
-- with its `str()`; any other object, with its `str()`.
pub data RawOutput : Type 0 where
  nothing : RawOutput
  text : Text → RawOutput
  structured : Text → Option Json → RawOutput
  unserialisable : Text → RawOutput
  object : Text → RawOutput

-- `raises` has the text `"{type}: {message}"` of an Exception; `cancelled` is CancelledError.
pub data Outcome : Type 0 where
  returns : RawOutput → Outcome
  raises : Text → Outcome
  cancelled : Outcome

-- The names of `inspect.signature(handler).parameters`, and whether one takes `**kwargs`.
pub record Signature : Type 0 where
  pub names : List Text
  pub var_keyword : Bool

-- `signature` is none where `inspect.signature` raises ValueError or TypeError.
pub record Handler : Type 0 where
  pub signature : Option Signature
  pub run : List (Text × Argument) → Outcome

pub record Tool : Type 0 where
  pub name : Text
  pub description : Text
  pub parameters : Fields
  pub handler : Handler

-- `{"type": "object", "properties": {}}`
abbrev default_parameters : Fields
default_parameters =
    field (codes "type") (str (codes "object")) (field (codes "properties") (obj end) end)

-- Tool.__init__
unfoldable pub make_tool : Text → Text → Option Fields → Handler → Raises Tool
make_tool name description parameters handler =
    if is_empty (strip name)
    then err value_error
    else if ltb 128 (length name)
    then err value_error
    else if ltb 4000 (length description)
    then err value_error
    else ok (record {
      name = strip name;
      description = description;
      parameters = elim parameters [ some fields ↦ fields | none ↦ default_parameters ];
      handler = handler;
    })

-- Tool.to_definition
unfoldable pub to_definition : Tool → ToolDefinition
to_definition tool = record {
  name = tool.name;
  description = tool.description;
  parameters = tool.parameters;
}

pub data ToolErrorCode : Type 0 where
  tool_not_found invalid_arguments validation_failed execution_failed cancelled : ToolErrorCode

pub record ToolResult : Type 0 where
  pub tool_call_id : Text
  pub tool_name : Text
  pub success : Bool
  pub output : Text
  pub result : Option Json
  pub error : Option Text
  pub error_code : Option ToolErrorCode

short : Text → Bool
short t = leb 1 (length t) && leb (length t) 128

short_error : Option Text → Bool
short_error none = true
short_error (some e) = leb (length e) 4000

-- The constructor ToolResult(…) with its field constraints.
unfoldable pub tool_result : ToolResult → Raises ToolResult
unfolding short short_error
tool_result r =
    if short r.tool_call_id
      && short r.tool_name
      && leb (length r.output) 32000
      && short_error r.error
    then ok r
    else err validation_error

-- ToolResult.success_result
unfoldable pub success_result : Text → Text → Text → Option Json → Raises ToolResult
unfolding tool_result
success_result tool_call_id tool_name output result = tool_result (record {
  tool_call_id = tool_call_id;
  tool_name = tool_name;
  success = true;
  output = output;
  result = result;
  error = none;
  error_code = none;
})

-- ToolResult.failure_result, with `output` left out
unfoldable pub failure_result : Text → Text → Text → ToolErrorCode → Raises ToolResult
unfolding tool_result
failure_result tool_call_id tool_name error error_code = tool_result (record {
  tool_call_id = tool_call_id;
  tool_name = tool_name;
  success = false;
  output = codes "Error: " ++ error;
  result = none;
  error = some error;
  error_code = some error_code;
})
