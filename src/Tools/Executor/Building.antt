-- ===== src/Tools/Executor/Building.antt =====
-- Step 6 of ToolExecutor.execute as a whole, in executor.py of packages/tools/src/xymphony_tools.
use mathlib.Core.List.{append-nil, append_assoc}
use xymphony_voice.Base.{
  ◌≡◌, refl, sym, ap, ◌∙◌, ◌↔◌, Bool, true, false, ◌||◌, Option, none, some, [], ◌∷◌, ◌++◌,
  if◌then◌else◌,
}
use xymphony_voice.Base.Text.{Text, codes, text_eq}
use xymphony_voice.Json.{Fields}
use xymphony_voice.Tools.Domain.{Handler, Signature, Argument, ToolExecutionContext}
use xymphony_voice.Tools.Executor.{
  Cancellation, Kwargs, kwargs_of, has_key, mem_text, add_extra, context_argument, cancel_argument,
  build_kwargs,
}
use xymphony_voice.Tools.Executor.Passing.{Passed}
use xymphony_voice.Tools.Executor.Extras.{
  takes, chosen, kwargs_of-entries, has_key-append, Extra-chosen, chosen-Extra,
}

add_extra-chosen :
    (s : Signature) (key : Text) (given : Option Argument) (kwargs : Kwargs)
    → add_extra s key given kwargs
      ≡ kwargs ++ chosen (takes (some s) key) (has_key key kwargs) key given
unfolding add_extra chosen takes
add_extra-chosen s key none kwargs = sym (append-nil kwargs)
add_extra-chosen s key (some v) kwargs =
    go (mem_text key s.names || s.var_keyword) (has_key key kwargs)
  where
    go :
        (t b : Bool)
        → (if t then if b then kwargs else kwargs ++ (key, v) ∷ [] else kwargs)
          ≡ kwargs ++ chosen t b key (some v)
    go true true = sym (append-nil kwargs)
    go true false = refl
    go false b = sym (append-nil kwargs)

cancel_apart : text_eq (codes "context") (codes "cancel") ≡ false
unfolding text_eq
cancel_apart = refl

has_key-chosen :
    (kwargs : Kwargs) (t b : Bool) (given : Option Argument)
    → has_key (codes "cancel") (kwargs ++ chosen t b (codes "context") given)
      ≡ has_key (codes "cancel") kwargs
unfolding chosen
has_key-chosen kwargs t b none = ap (has_key (codes "cancel")) (append-nil kwargs)
has_key-chosen kwargs true false (some v) =
    has_key-append (codes "cancel") kwargs (codes "context") v cancel_apart
has_key-chosen kwargs true true (some v) = ap (has_key (codes "cancel")) (append-nil kwargs)
has_key-chosen kwargs false b (some v) = ap (has_key (codes "cancel")) (append-nil kwargs)

-- The two additions for an object's fields.
choice : Option Signature → Fields → Text → Option Argument → Kwargs
choice signature fields key given =
    chosen (takes signature key) (has_key key (kwargs_of fields)) key given

chosen_untaken : (b : Bool) (key : Text) (given : Option Argument) → chosen false b key given ≡ []
unfolding chosen
chosen_untaken b key none = refl
chosen_untaken b key (some v) = refl

choice_untaken :
    (fields : Fields) (key : Text) (given : Option Argument) → choice none fields key given ≡ []
unfolding choice takes
choice_untaken fields key given = chosen_untaken (has_key key (kwargs_of fields)) key given

build_kwargs-choice :
    (handler : Handler) (fields : Fields) (ctx : Option ToolExecutionContext)
    (cancel : Option Cancellation)
    → build_kwargs handler fields ctx cancel
      ≡ kwargs_of fields
        ++ (choice handler.signature fields (codes "context") (context_argument ctx)
            ++ choice handler.signature fields (codes "cancel") (cancel_argument cancel))
unfolding build_kwargs choice
build_kwargs-choice handler fields ctx cancel = go handler.signature
  where
    go :
        (signature : Option Signature)
        → (elim signature as (λ _. Kwargs) [
          | none ↦ kwargs_of fields
          | some s ↦
              add_extra s
                (codes "cancel")
                (cancel_argument cancel)
                (add_extra s (codes "context") (context_argument ctx) (kwargs_of fields))
        ])
          ≡ kwargs_of fields
            ++ (choice signature fields (codes "context") (context_argument ctx)
                ++ choice signature fields (codes "cancel") (cancel_argument cancel))
    go none = sym (
        ap
          (λ more.
            kwargs_of fields
            ++ (more ++ choice none fields (codes "cancel") (cancel_argument cancel)))
          (choice_untaken fields (codes "context") (context_argument ctx))
        ∙ ap (λ more. kwargs_of fields ++ more)
            (choice_untaken fields (codes "cancel") (cancel_argument cancel))
        ∙ append-nil (kwargs_of fields))
    go (some s) =
        let base = kwargs_of fields in
        let more =
          chosen (takes (some s) (codes "context")) (has_key (codes "context") base)
            (codes "context") (context_argument ctx) in
        add_extra-chosen s (codes "cancel") (cancel_argument cancel) _
        ∙ ap
            (λ k.
              k
              ++ chosen (takes (some s) (codes "cancel")) (has_key (codes "cancel") k)
                  (codes "cancel") (cancel_argument cancel))
            (add_extra-chosen s (codes "context") (context_argument ctx) base)
        ∙ ap
            (λ b.
              (base ++ more)
              ++ chosen (takes (some s) (codes "cancel")) b (codes "cancel")
                  (cancel_argument cancel))
            (has_key-chosen base (takes (some s) (codes "context")) (has_key (codes "context") base)
              (context_argument ctx))
        ∙ append_assoc base more _

-- What is passed is what `build_kwargs` builds.
pub Passed-iff :
    (handler : Handler) (fields : Fields) (ctx : Option ToolExecutionContext)
    (cancel : Option Cancellation) (kwargs : Kwargs)
    → Passed handler fields ctx cancel kwargs ↔ (kwargs ≡ build_kwargs handler fields ctx cancel)
unfolding choice
Passed-iff handler fields ctx cancel kwargs = (
  λ p.
      p.whole
      ∙ rw
          (
            Extra-chosen handler.signature fields (codes "context") (context_argument ctx) _
                p.adds_context _ _ refl refl,
            Extra-chosen handler.signature fields (codes "cancel") (cancel_argument cancel) _
                p.adds_cancel _ _ refl refl,
            sym (kwargs_of-entries fields),
          )
          (sym (build_kwargs-choice handler fields ctx cancel)),
  λ e. record {
    for_context = choice handler.signature fields (codes "context") (context_argument ctx);
    for_cancel = choice handler.signature fields (codes "cancel") (cancel_argument cancel);
    adds_context =
        chosen-Extra handler.signature fields (codes "context") (context_argument ctx) _ _ refl refl
          _ refl;
    adds_cancel =
        chosen-Extra handler.signature fields (codes "cancel") (cancel_argument cancel) _ _ refl
          refl _ refl;
    whole =
        e
        ∙ build_kwargs-choice handler fields ctx cancel
        ∙ ap
            (λ k.
              k
              ++ (choice handler.signature fields (codes "context") (context_argument ctx)
                  ++ choice handler.signature fields (codes "cancel") (cancel_argument cancel)))
            (kwargs_of-entries fields);
  },
)
