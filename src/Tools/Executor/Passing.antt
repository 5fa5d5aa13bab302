-- ===== src/Tools/Executor/Passing.antt =====
-- What ToolExecutor.execute of packages/tools/src/xymphony_tools/executor.py passes to a handler, said
-- without its code: the parsed object's fields, then the context and the token where they go.
use xymphony_voice.Base.{
  ◌≡◌, refl, sym, ap, ◌⊎◌, inl, inr, ◌↔◌, true, Option, none, some, List, [], ◌∷◌, ◌++◌, map, arith,
  if◌then◌else◌,
}
use xymphony_voice.Base.Text.{OneOf, Text, codes, strip, is_empty}
use xymphony_voice.Json.{Json, obj, Fields, end, field}
use xymphony_voice.Tools.Domain.{Handler, Signature, Argument, json, ToolExecutionContext}
use xymphony_voice.Tools.Executor.{
  Interpreter, value, Cancellation, Kwargs, Loaded, arguments, parse_arguments, context_argument,
  cancel_argument, as_object,
}

abbrev pub entries : Fields → List (Text × Json)
entries end = []
entries (field key v rest) = (key, v) ∷ entries rest

-- The signature has a parameter of this name, or takes any name. One that cannot be inspected has
-- none.
abbrev pub Takes : Option Signature → Text → Type 0
Takes none key = ⊥
Takes (some s) key = OneOf key s.names ⊎ (s.var_keyword ≡ true)

-- The object has a field of this name.
abbrev pub Named : Text → Fields → Type 0
Named key fields = OneOf key (map (λ e. e.0) (entries fields))

-- What is added under a name: the value, if there is one, the signature takes the name and no field
-- has it; and else nothing.
pub data Extra (signature : Option Signature) (fields : Fields) (key : Text)
    (given : Option Argument) (more : Kwargs) : Type 0 where
  passes :
      (v : Argument)
      → given ≡ some v
      → Takes signature key
      → ¬ (Named key fields)
      → more ≡ (key, v) ∷ []
      → Extra signature fields key given more
  nothing_given : given ≡ none → more ≡ [] → Extra signature fields key given more
  not_taken : ¬ (Takes signature key) → more ≡ [] → Extra signature fields key given more
  named : Named key fields → more ≡ [] → Extra signature fields key given more

-- The fields in their order, then the context, then the token.
pub record Passed (handler : Handler) (fields : Fields) (ctx : Option ToolExecutionContext)
    (cancel : Option Cancellation) (kwargs : Kwargs) : Type 0 where
  pub for_context : Kwargs
  pub for_cancel : Kwargs
  pub adds_context :
      Extra handler.signature fields (codes "context") (context_argument ctx) for_context
  pub adds_cancel :
      Extra handler.signature fields (codes "cancel") (cancel_argument cancel) for_cancel
  pub whole : kwargs ≡ map (λ e. (e.0, json e.1)) (entries fields) ++ (for_context ++ for_cancel)

-- No text, which stands for no arguments, or the text of an object.
unfoldable pub Reads : Interpreter → Text → Fields → Type 0
Reads py raw fields =
    ((strip raw ≡ []) × (fields ≡ end))
    ⊎ ((¬ (strip raw ≡ [])) × (py.loads (strip raw) ≡ value (obj fields)))

as_object-arguments :
    (loaded : Loaded) (fields : Fields)
    → as_object loaded ≡ arguments fields
    → loaded ≡ value (obj fields)
unfolding as_object
as_object-arguments loaded fields h = ground (arith, h)

-- The text reads as an object where `parse_arguments` gives that object.
pub Reads-iff :
    (py : Interpreter) (raw : Text) (fields : Fields)
    → Reads py raw fields ↔ (parse_arguments py raw ≡ arguments fields)
unfolding Reads parse_arguments as_object
Reads-iff py raw fields = go (strip raw)
  where
    go :
        (t : Text)
        → (((t ≡ []) × (fields ≡ end)) ⊎ ((¬ (t ≡ [])) × (py.loads t ≡ value (obj fields))))
          ↔ ((if is_empty t then arguments end else as_object (py.loads t)) ≡ arguments fields)
    go [] = (
      λ h. elim h [ inl h ↦ ap arguments (sym h.1) | inr h ↦ absurd (h.0 refl) ],
      λ e. inl (refl, ground (arith, e)),
    )
    go (c ∷ t) = (
      λ h. elim h [ inl h ↦ absurd (cc h.0) | inr h ↦ ground (arith, h.1) ],
      λ e. inr (λ z. absurd (cc z), as_object-arguments (py.loads (c ∷ t)) fields e),
    )
