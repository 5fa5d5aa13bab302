-- ===== src/Tools/Registry.antt =====
-- packages/tools/src/xymphony_tools/registry.py: the dict of tools by name, in insertion order.
pub mod Agents
use xymphony_voice.Base.{
  ℕ, ◌==◌, ltb, Bool, true, false, Option, none, some, List, [], ◌∷◌, ◌++◌, length, map, is_some,
  if◌then◌else◌,
}
use xymphony_voice.Base.Text.{Text, text_eq}
use xymphony_voice.Base.Result.{ok, err, ◌>>=◌}
use xymphony_voice.Errors.{Raises, tool_not_found, tool_already_registered}
use xymphony_voice.Assembler.{ToolDefinition}
use xymphony_voice.Tools.Domain.{Tool, to_definition}

abbrev pub Registry : Type 0
Registry = List (Text × Tool)

-- ToolRegistry.get
unfoldable pub get : Registry → Text → Option Tool
get [] name = none
get ((key, tool) ∷ rest) name = if text_eq key name then some tool else get rest name

-- ToolRegistry.has, and `name in registry`
unfoldable pub has : Registry → Text → Bool
unfolding get
has registry name = is_some (get registry name)

-- ToolRegistry.register: a new key goes to the end of the dict.
unfoldable pub register : Registry → Tool → Raises Registry
unfolding has
register registry tool =
    if has registry tool.name
    then err (tool_already_registered tool.name)
    else ok (registry ++ (tool.name, tool) ∷ [])

delete : Registry → Text → Registry
delete [] name = []
delete ((key, tool) ∷ rest) name =
    let later = delete rest name in if text_eq key name then rest else (key, tool) ∷ later

-- ToolRegistry.unregister
unfoldable pub unregister : Registry → Text → Registry × Bool
unfolding has delete
unregister registry name =
    if has registry name then (delete registry name, true) else (registry, false)

-- Python's order on `str`: by code points.
unfoldable pub text_lt : Text → Text → Bool
text_lt [] [] = false
text_lt [] (b ∷ t) = true
text_lt (a ∷ s) [] = false
text_lt (a ∷ s) (b ∷ t) = if ltb a b then true else if ltb b a then false else text_lt s t

unfoldable pub insert_name : Text → List Text → List Text
insert_name name [] = name ∷ []
insert_name name (other ∷ rest) =
    let later = insert_name name rest in
    if text_lt other name then other ∷ later else name ∷ other ∷ rest

-- `sorted(names)`
unfoldable pub sorted : List Text → List Text
unfolding insert_name text_lt
sorted [] = []
sorted (name ∷ rest) = insert_name name (sorted rest)

abbrev pub keys : Registry → List Text
keys = map (λ entry. entry.0)

-- `tuple(self._tools[name] for name in names)` at names that are keys
lookups : Registry → List Text → List Tool
lookups registry [] = []
lookups registry (name ∷ names) =
    let rest = lookups registry names in
    elim (get registry name) [ some tool ↦ tool ∷ rest | none ↦ rest ]

-- ToolRegistry.list_tools
unfoldable pub list_tools : Registry → List Tool
unfolding lookups sorted get
list_tools registry = lookups registry (sorted (keys registry))

-- ToolRegistry.get_definitions
unfoldable pub get_definitions : Registry → List ToolDefinition
unfolding list_tools to_definition
get_definitions registry = map to_definition (list_tools registry)

-- AgentToolBinding, as far as the registry reads it
pub record Binding : Type 0 where
  pub tool_name : Text
  pub enabled : Bool

-- The loop of `build_agent_tool_registry`.
unfoldable pub build_loop : Registry → Bool → Registry → List Binding → Raises Registry
build_loop catalog strict built [] = ok built
build_loop catalog strict built (binding ∷ bindings) = elim binding.enabled [
  | false ↦ build_loop catalog strict built bindings
  | true ↦ elim (get catalog binding.tool_name) [
    | none ↦ elim strict [
      | true ↦ err (tool_not_found binding.tool_name)
      | false ↦ build_loop catalog strict built bindings
    ]
    | some tool ↦ register built tool >>= λ more. build_loop catalog strict more bindings
  ]
]

unfoldable pub build_agent_tool_registry : Registry → List Binding → Bool → Raises Registry
unfolding build_loop
build_agent_tool_registry catalog bindings strict = build_loop catalog strict [] bindings
