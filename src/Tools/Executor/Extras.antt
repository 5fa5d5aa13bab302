-- ===== src/Tools/Executor/Extras.antt =====
-- The arguments that step 6 of ToolExecutor.execute adds to a call of a handler, in executor.py of
-- packages/tools/src/xymphony_tools.
use xymphony_voice.Base.{
  ◌≡◌, refl, sym, ap, ◌∙◌, inl, inr, ◌↔◌, Bool, true, false, ◌||◌, Option, none, some, List, [],
  ◌∷◌, ◌++◌, map, arith, Bool-cases,
}
use xymphony_voice.Base.Text.{OneOf, Text, text_eq, text_eq_iff}
use xymphony_voice.Json.{Fields, end, field}
use xymphony_voice.Tools.Domain.{Signature, Argument, json}
use xymphony_voice.Tools.Executor.{Kwargs, kwargs_of, has_key, mem_text}
use xymphony_voice.Tools.Executor.Passing.{
  entries, Takes, Extra, passes, nothing_given, not_taken, named,
}

pub mem_text-OneOf : (key : Text) (ks : List Text) → (mem_text key ks ≡ true) ↔ OneOf key ks
unfolding mem_text
mem_text-OneOf key [] = (λ h. absurd (cc h), λ h. absurd h)
mem_text-OneOf key (k ∷ ks) = (
  λ h. elim (Bool-cases (text_eq k key)) [
    | inl here ↦ inl (sym ((text_eq_iff k key).0 here))
    | inr other ↦ inr ((mem_text-OneOf key ks).0 (ground (arith, h, other)))
  ],
  λ h. elim h [
    | inl same ↦ ground (arith, (text_eq_iff k key).1 (sym same))
    | inr later ↦ ground (arith, (mem_text-OneOf key ks).1 later)
  ],
)

unfoldable pub takes : Option Signature → Text → Bool
takes none key = false
takes (some s) key = mem_text key s.names || s.var_keyword

pub takes-Takes :
    (signature : Option Signature) (key : Text) → (takes signature key ≡ true) ↔ Takes signature key
unfolding takes
takes-Takes none key = (λ h. absurd (cc h), λ h. absurd h)
takes-Takes (some s) key = (
  λ h. elim (Bool-cases (mem_text key s.names)) [
    | inl here ↦ inl ((mem_text-OneOf key s.names).0 here)
    | inr other ↦ inr (ground (arith, h, other))
  ],
  λ h. elim h [
    | inl here ↦ ground (arith, (mem_text-OneOf key s.names).1 here)
    | inr any ↦ ground (arith, any)
  ],
)

pub kwargs_of-entries :
    (fields : Fields) → kwargs_of fields ≡ map (λ e. (e.0, json e.1)) (entries fields)
unfolding kwargs_of
kwargs_of-entries end = refl
kwargs_of-entries (field key v rest) = ap (λ r. (key, json v) ∷ r) (kwargs_of-entries rest)

pub has_key-names :
    (key : Text) (fields : Fields)
    → has_key key (kwargs_of fields) ≡ mem_text key (map (λ e. e.0) (entries fields))
unfolding has_key kwargs_of mem_text
has_key-names key end = refl
has_key-names key (field k v rest) = ap (λ b. text_eq k key || b) (has_key-names key rest)

pub has_key-append :
    (key : Text) (xs : Kwargs) (k : Text) (v : Argument)
    → text_eq k key ≡ false
    → has_key key (xs ++ (k, v) ∷ []) ≡ has_key key xs
unfolding has_key
has_key-append key [] k v h = ground (arith, h)
has_key-append key ((j, w) ∷ xs) k v h = ap (λ b. text_eq j key || b) (has_key-append key xs k v h)

-- The addition, by what decides it: the signature takes the name, and a field has it.
unfoldable pub chosen : Bool → Bool → Text → Option Argument → Kwargs
chosen t b key none = []
chosen true false key (some v) = (key, v) ∷ []
chosen true true key (some v) = []
chosen false b key (some v) = []

module _ (signature : Option Signature) (fields : Fields) (key : Text)
    (given : Option Argument) where
  pub Extra-chosen :
      (more : Kwargs)
      → Extra signature fields key given more
      → (t b : Bool) → takes signature key ≡ t
      → has_key key (kwargs_of fields) ≡ b
      → more ≡ chosen t b key given
  unfolding chosen
  Extra-chosen more (passes v g taken free e) true false t b = ground (arith, g, e)
  Extra-chosen more (passes v g taken free e) true true t b =
      absurd (free ((mem_text-OneOf key _).0 (sym (has_key-names key fields) ∙ b)))
  Extra-chosen more (passes v g taken free e) false b' t b =
      absurd (ground (arith, t, (takes-Takes signature key).1 taken))
  Extra-chosen more (nothing_given g e) t' b' t b = ground (arith, g, e)
  Extra-chosen more (not_taken never e) true b' t b =
      absurd (never ((takes-Takes signature key).0 t))
  Extra-chosen more (not_taken never e) false b' t b = e ∙ nothing_chosen b' given
    where
      nothing_chosen : (b : Bool) (g : Option Argument) → [] ≡ chosen false b key g
      nothing_chosen b none = refl
      nothing_chosen b (some v) = refl
  Extra-chosen more (named n e) t' false t b =
      absurd (ground (arith, b, has_key-names key fields, (mem_text-OneOf key _).1 n))
  Extra-chosen more (named n e) t' true t b = e ∙ nothing_chosen t' given
    where
      nothing_chosen : (t : Bool) (g : Option Argument) → [] ≡ chosen t true key g
      nothing_chosen t none = refl
      nothing_chosen true (some v) = refl
      nothing_chosen false (some v) = refl

  pub chosen-Extra :
      (t b : Bool)
      → takes signature key ≡ t
      → has_key key (kwargs_of fields) ≡ b
      → (g : Option Argument) → given ≡ g
      → Extra signature fields key given (chosen t b key g)
  unfolding chosen
  chosen-Extra t b e h none g = nothing_given g refl
  chosen-Extra false b e h (some v) g =
      not_taken (λ k. absurd (ground (arith, e, (takes-Takes signature key).1 k))) refl
  chosen-Extra true true e h (some v) g =
      named ((mem_text-OneOf key _).0 (sym (has_key-names key fields) ∙ h)) refl
  chosen-Extra true false e h (some v) g =
      passes v g ((takes-Takes signature key).0 e)
        (λ n. absurd (ground (arith, h, has_key-names key fields, (mem_text-OneOf key _).1 n))) refl
