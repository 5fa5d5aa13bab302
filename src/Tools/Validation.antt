-- ===== src/Tools/Validation.antt =====
-- packages/tools/src/xymphony_tools/validation.py. Python's `==` on JSON values, which the enum test
-- uses, is the parameter `same`. A `crash` is the TypeError of hashing a list or a dict, or of
-- joining type names that are not all strings.
pub mod Types
pub mod Spec
use xymphony_voice.Base.{
  ℕ, ◌==◌, Bool, true, false, not, ◌&&◌, ◌||◌, Option, none, some, if◌then◌else◌,
}
use xymphony_voice.Base.Text.{Text, codes, text_eq, is_empty}
use xymphony_voice.Base.Result.{Result, ok, err, ◌>>=◌}
use xymphony_voice.Json.{
  ℤ, pos, negsuc, Json, null, bool, int, float, str, arr, obj, Items, nil, cons, Fields, end, field,
  get, has,
}

-- Why ToolArgumentValidationError was raised, with what its message prints.
pub data Fault : Type 0 where
  missing : Json → Fault
  wrong_type : Text → Json → Json → Fault
  not_allowed : Text → Json → Items → Fault
  unexpected : Text → Fault

pub data Rejection : Type 0 where
  invalid : Fault → Rejection
  crash : Rejection

abbrev pub Checks : Type 0 → Type 0
Checks A = Result Rejection A

-- What `isinstance` tells of a value.
pub data Kind : Type 0 where
  string integer real boolean array object none_type : Kind

unfoldable pub kind : Json → Kind
kind null = none_type
kind (bool _) = boolean
kind (int _) = integer
kind (float _) = real
kind (str _) = string
kind (arr _) = array
kind (obj _) = object

unfoldable pub is_number : Kind → Bool
is_number integer = true
is_number real = true
is_number _ = false

unfoldable same_kind : Kind → Kind → Bool
same_kind string string = true
same_kind integer integer = true
same_kind boolean boolean = true
same_kind array array = true
same_kind object object = true
same_kind none_type none_type = true
same_kind _ _ = false

-- `_TYPE_CHECKERS.get(name)` applied to the value; an unknown name accepts every value.
unfoldable pub check : Text → Json → Bool
unfolding kind is_number same_kind
check name v =
    if text_eq name (codes "string")
    then same_kind (kind v) string
    else if text_eq name (codes "integer")
    then same_kind (kind v) integer
    else if text_eq name (codes "number")
    then is_number (kind v)
    else if text_eq name (codes "boolean")
    then same_kind (kind v) boolean
    else if text_eq name (codes "array")
    then same_kind (kind v) array
    else if text_eq name (codes "object")
    then same_kind (kind v) object
    else if text_eq name (codes "null")
    then same_kind (kind v) none_type
    else true

-- `any(…)` stops at the first match, so a later declaration that cannot be hashed is not reached.
or_else : Checks Bool → Checks Bool → Checks Bool
or_else (ok true) rest = ok true
or_else (ok false) rest = rest
or_else (err e) rest = err e

-- _matches_type
unfoldable mutual
  unfolding check or_else

  pub matches_type : Json → Json → Checks Bool
  matches_type v (str name) = ok (check name v)
  matches_type v (arr declared) = matches_any v declared
  matches_type v (obj _) = err crash
  matches_type v null = ok true
  matches_type v (bool _) = ok true
  matches_type v (int _) = ok true
  matches_type v (float _) = ok true

  pub matches_any : Json → Items → Checks Bool
  matches_any v nil = ok false
  matches_any v (cons t ts) = or_else (matches_type v t) (matches_any v ts)

-- `for req in required: if req not in arguments: raise`
unfoldable pub check_required : Items → Fields → Checks (Unit {0})
check_required nil arguments = ok tt
check_required (cons (str name) rest) arguments =
    let later = check_required rest arguments in
    if has arguments name then later else err (invalid (missing (str name)))
check_required (cons (arr xs) rest) arguments = err crash
check_required (cons (obj xs) rest) arguments = err crash
check_required (cons other rest) arguments = err (invalid (missing other))

-- Python's truth of a JSON value; 0x8000000000000000 is -0.0.
unfoldable pub truthy : Json → Bool
truthy null = false
truthy (bool b) = b
truthy (int (pos n)) = not (n == 0)
truthy (int (negsuc n)) = true
truthy (float bits) = not (bits == 0 || bits == 0x8000000000000000)
truthy (str s) = not (is_empty s)
truthy (arr nil) = false
truthy (arr (cons _ _)) = true
truthy (obj end) = false
truthy (obj (field _ _ _)) = true

unfoldable pub all_strings : Items → Bool
all_strings nil = true
all_strings (cons (str _) rest) = all_strings rest
all_strings (cons _ rest) = false

-- The `raise` on a type mismatch, whose message joins the declared names.
mismatch : Text → Json → Json → Checks (Unit {0})
mismatch key v (arr names) =
    if all_strings names then err (invalid (wrong_type key (arr names) v)) else err crash
mismatch key v declared = err (invalid (wrong_type key declared v))

-- `prop_type = prop_spec.get("type"); if prop_type and not _matches_type(val, prop_type): raise`
unfoldable pub check_type : Text → Json → Option Json → Checks (Unit {0})
unfolding truthy all_strings mismatch
check_type key v none = ok tt
check_type key v (some declared) =
    if truthy declared
    then (matches_type v declared >>= λ fits. if fits then ok tt else mismatch key v declared)
    else ok tt

abbrev pub array_of : Option Json → Option Items
array_of (some (arr xs)) = some xs
array_of _ = none

abbrev pub object_of : Option Json → Option Fields
object_of (some (obj fs)) = some fs
object_of _ = none

abbrev pub is_false : Option Json → Bool
is_false (some (bool false)) = true
is_false _ = false

-- `schema.get("properties", {})`, and `{}` if that is not a dict
unfoldable pub properties_of : Fields → Fields
properties_of schema = elim (object_of (get schema (codes "properties"))) [
  | some fs ↦ fs
  | none ↦ end
]

module _ (same : Json → Json → Bool) where
  -- `val in enum_values`
  unfoldable pub contains : Json → Items → Bool
  contains v nil = false
  contains v (cons x xs) = same v x || contains v xs

  unfoldable pub check_enum : Text → Json → Option Items → Checks (Unit {0})
  unfolding contains
  check_enum key v none = ok tt
  check_enum key v (some allowed) =
      if contains v allowed then ok tt else err (invalid (not_allowed key v allowed))

  -- The body of the loop over `arguments.items()`; `closed` is `additional_allowed is False`.
  unfoldable pub check_argument : Fields → Bool → Text → Json → Checks (Unit {0})
  unfolding check_type check_enum
  check_argument properties closed key v = elim (get properties key) [
    | none ↦ if closed then err (invalid (unexpected key)) else ok tt
    | some (obj spec) ↦ check_type key v (get spec (codes "type")) >>= λ _.
        check_enum key v (array_of (get spec (codes "enum")))
    | some _ ↦ ok tt
  ]

  unfoldable pub check_arguments : Fields → Bool → Fields → Checks (Unit {0})
  check_arguments properties closed end = ok tt
  check_arguments properties closed (field key v rest) =
      check_argument properties closed key v >>= λ _. check_arguments properties closed rest

  -- The first test, that the arguments are a dict, holds by their type.
  unfoldable pub validate_tool_arguments : Fields → Fields → Checks (Unit {0})
  unfolding properties_of
  validate_tool_arguments schema arguments =
      elim (array_of (get schema (codes "required"))) [
        | some names ↦ check_required names arguments
        | none ↦ ok tt
      ]
      >>= λ _.
          check_arguments (properties_of schema)
            (is_false (get schema (codes "additionalProperties"))) arguments
