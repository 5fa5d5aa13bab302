-- ===== src/Tools/Registry/Agents.antt =====
-- Which tools an agent's registry holds.
use xymphony_voice.Base.{
  ◌≡◌, refl, ◌⊎◌, inl, inr, Bool, true, false, ◌&&◌, ◌||◌, Option, none, some, List, [], ◌∷◌, ◌++◌,
  arith, if◌then◌else◌, Bool-cases, Option-cases, subst, sym, ◌∙◌,
}
use xymphony_voice.Base.Text.{Text, text_eq, text_eq_iff}
use xymphony_voice.Base.Result.{ok, err}
use xymphony_voice.Errors.{tool_already_registered}
use xymphony_voice.Tools.Domain.{Tool}
use xymphony_voice.Tools.Registry.{
  Registry, Binding, get, has, register, build_loop, build_agent_tool_registry,
}

-- Every tool stands under its own name, once.
abbrev pub IsKeyed : Registry → Type 0
IsKeyed [] = Unit
IsKeyed ((key, tool) ∷ rest) = (key ≡ tool.name) × (has rest key ≡ false) × IsKeyed rest

get-append :
    (registry : Registry) (key : Text) (tool : Tool) (name : Text)
    → has registry key ≡ false
    → get (registry ++ (key, tool) ∷ []) name
      ≡ (if text_eq key name then some tool else get registry name)
unfolding get has
get-append [] key tool name h = refl
get-append ((k, t) ∷ rest) key tool name h = ground (
  arith,
  get-append rest key tool name,
  text_eq_iff k key,
  text_eq_iff k name,
  text_eq_iff key name,
)

has-append :
    (registry : Registry) (key : Text) (tool : Tool) (name : Text)
    → has registry key ≡ false
    → has (registry ++ (key, tool) ∷ []) name ≡ (text_eq key name || has registry name)
unfolding has
has-append registry key tool name h = ground (arith, get-append registry key tool name h)

has-cons :
    (registry : Registry) (key : Text) (tool : Tool) (name : Text)
    → has ((key, tool) ∷ registry) name ≡ (text_eq key name || has registry name)
unfolding has
has-cons registry key tool name = ground arith

IsKeyed-append :
    (registry : Registry) (tool : Tool)
    → IsKeyed registry
    → has registry tool.name ≡ false
    → IsKeyed (registry ++ (tool.name, tool) ∷ [])
unfolding get
IsKeyed-append [] tool keyed new = (refl, unfold has in refl, tt)
IsKeyed-append ((key, t) ∷ rest) tool (same, once, keyed) new =
    let absent : has rest tool.name ≡ false = ground (arith, has-cons rest key t tool.name) in
    (
      same,
      ground (
        arith,
        has-cons rest key t tool.name,
        has-append rest tool.name tool key absent,
        text_eq_iff key tool.name,
        text_eq_iff tool.name key,
      ),
      IsKeyed-append rest tool keyed absent,
    )

-- Registering succeeds exactly for a new name; then that name finds the tool, every other name
-- finds what it found before, and each tool still stands under its own name, once.
pub register_lem :
    (registry : Registry) (tool : Tool)
    → IsKeyed registry
    → ((has registry tool.name ≡ true)
        × (register registry tool ≡ err (tool_already_registered tool.name)))
      ⊎ ((more : Registry) × (has registry tool.name ≡ false)
          × (register registry tool ≡ ok more)
          × IsKeyed more
          × ((name : Text)
              → get more name ≡ (if text_eq tool.name name then some tool else get registry name)))
unfolding register
register_lem registry tool keyed = elim (Bool-cases (has registry tool.name)) [
  | inl there ↦ inl (there, rw there)
  | inr new ↦ inr (
    registry ++ (tool.name, tool) ∷ [],
    new,
    rw new,
    IsKeyed-append registry tool keyed new,
    λ name. get-append registry tool.name tool name new,
  )
]

get-name :
    (registry : Registry) (name : Text) (tool : Tool)
    → IsKeyed registry
    → get registry name ≡ some tool
    → tool.name ≡ name
unfolding get
get-name [] name tool keyed h = cc
get-name ((k, t) ∷ rest) name tool keyed h =
    ground (arith, text_eq_iff k name, get-name rest name tool keyed.2)

-- Some binding of the list names the tool and is enabled.
pub bound : Text → List Binding → Bool
bound name [] = false
bound name (binding ∷ bindings) =
    (binding.enabled && text_eq binding.tool_name name) || bound name bindings

-- What the result finds: what was there before, else the catalog's tool of a bound name.
abbrev merged : Option Tool → Bool → Option Tool → Option Tool
merged (some tool) b found = some tool
merged none b found = if b then found else none

absent : (registry : Registry) (name : Text) → has registry name ≡ false → get registry name ≡ none
unfolding has
absent registry name h = ground arith

-- What the bound name finds before and in the catalog.
bound_at :
    (catalog built : Registry) (tool : Tool) (bound_name name : Text)
    → tool.name ≡ bound_name
    → get catalog bound_name ≡ some tool
    → has built tool.name ≡ false
    → text_eq tool.name name ≡ true
    → (get catalog name ≡ some tool) × (get built name ≡ none) × (text_eq bound_name name ≡ true)
bound_at catalog built tool bound_name name named found new e =
    let same : tool.name ≡ name = (text_eq_iff tool.name name).0 e in
    (
      subst (λ k. get catalog k ≡ some tool) (sym named ∙ same) found,
      subst (λ k. get built k ≡ none) same (absent built tool.name new),
      subst (λ k. text_eq k name ≡ true) named e,
    )

unbound_at :
    (tool : Tool) (bound_name name : Text)
    → tool.name ≡ bound_name
    → text_eq tool.name name ≡ false
    → text_eq bound_name name ≡ false
unbound_at tool bound_name name named e = subst (λ k. text_eq k name ≡ false) named e

build_loop-get :
    (catalog : Registry) (strict : Bool) (built : Registry) (bindings : List Binding)
    (result : Registry) (name : Text)
    → IsKeyed catalog
    → IsKeyed built
    → build_loop catalog strict built bindings ≡ ok result
    → IsKeyed result
      × (get result name ≡ merged (get built name) (bound name bindings) (get catalog name))
unfolding build_loop bound
build_loop-get catalog strict built [] result name kc kb h =
    let same : built ≡ result = cc in (subst IsKeyed same kb, ground arith)
build_loop-get catalog strict built (binding ∷ bindings) result name kc kb h =
    elim (Bool-cases binding.enabled) [
      | inr off ↦
          let (keyed, finds) =
            build_loop-get catalog strict built bindings result name kc kb (ground arith) in
          (keyed, ground (arith, finds))
      | inl on ↦ elim (Option-cases (get catalog binding.tool_name)) [
        | inl unknown ↦
            let (keyed, finds) =
              build_loop-get catalog strict built bindings result name kc kb (ground arith) in
            (keyed, ground (arith, finds, text_eq_iff binding.tool_name name))
        | inr (tool, found) ↦ elim (register_lem built tool kb) [
          | inl (there, raised) ↦ absurd (ground arith)
          | inr (more, new, done, keyed', look) ↦
              let (keyed, finds) =
                build_loop-get catalog strict more bindings result name kc keyed' (ground arith) in
              let named = get-name catalog binding.tool_name tool kc found in
              (
                keyed,
                elim (Bool-cases (text_eq tool.name name)) [
                  | inl eq ↦ ground (
                    arith,
                    finds,
                    look name,
                    bound_at catalog built tool binding.tool_name name named found new eq,
                  )
                  | inr ne ↦
                      ground
                        (arith, finds, look name, unbound_at tool binding.tool_name name named ne)
                ],
              )
        ]
      ]
    ]

-- Over a catalog where each tool stands under its own name, an agent's registry that is built
-- finds exactly the tools of the catalog that an enabled binding names, and nothing under any other
-- name; and each of its tools stands under its own name, once.
pub build_agent_tool_registry_lem :
    (catalog : Registry) (bindings : List Binding) (strict : Bool) (result : Registry)
    → IsKeyed catalog
    → build_agent_tool_registry catalog bindings strict ≡ ok result
    → IsKeyed result
      × ((name : Text) → get result name ≡ (if bound name bindings then get catalog name else none))
unfolding build_agent_tool_registry
build_agent_tool_registry_lem catalog bindings strict result keyed h = (
  (build_loop-get catalog strict [] bindings result [] keyed tt h).0,
  λ name. unfold get in (build_loop-get catalog strict [] bindings result name keyed tt h).1,
)
