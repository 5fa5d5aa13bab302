-- ===== src/Tools/Validation/Spec.antt =====
-- The validator against a declarative reading of the JSON Schema keywords that it supports.
use xymphony_voice.Base.{
  ◌≡◌, refl, ◌⊎◌, inl, inr, ◌↔◌, Bool, true, false, Option, none, some, [], arith, Bool-cases,
  subst,
}
use xymphony_voice.Base.Text.{Text, codes, text_eq, text_eq_iff}
use xymphony_voice.Base.Result.{ok, err, ◌>>=◌}
use xymphony_voice.Json.{
  Json, null, bool, int, float, str, arr, obj, Items, nil, cons, Fields, end, field, get, has,
}
use xymphony_voice.Tools.Validation.Types.{HasType, check-HasType}
use xymphony_voice.Tools.Validation.{
  Checks, check, all_strings, matches_type, matches_any, check_required, check_type, check_enum,
  contains, check_argument, check_arguments, array_of, is_false, properties_of,
  validate_tool_arguments,
}

-- One of the named types is the value's.
abbrev pub AnyType : Json → Items → Type 0
AnyType v nil = ⊥
AnyType v (cons (str name) rest) = HasType name v ⊎ AnyType v rest
AnyType v (cons _ rest) = AnyType v rest

-- The keyword `type`; an empty name or list constrains nothing.
abbrev pub TypeHolds : Json → Option Json → Type 0
TypeHolds v (some (str name)) = (name ≡ []) ⊎ HasType name v
TypeHolds v (some (arr names)) = (names ≡ nil) ⊎ AnyType v names
TypeHolds v _ = Unit

-- A `type` keyword as JSON Schema has it: absent, a name, or an array of names.
abbrev pub PlainType : Option Json → Type 0
PlainType none = Unit
PlainType (some (str _)) = Unit
PlainType (some (arr names)) = all_strings names ≡ true
PlainType (some _) = ⊥

abbrev pub PlainProperty : Json → Type 0
PlainProperty (obj spec) = PlainType (get spec (codes "type"))
PlainProperty _ = Unit

abbrev pub PlainProperties : Fields → Type 0
PlainProperties end = Unit
PlainProperties (field _ p rest) = PlainProperty p × PlainProperties rest

abbrev pub PlainRequired : Option Items → Type 0
PlainRequired none = Unit
PlainRequired (some names) = all_strings names ≡ true

-- The schema uses `type` and `required` as JSON Schema has them.
pub record IsPlain (schema : Fields) : Type 0 where
  pub required : PlainRequired (array_of (get schema (codes "required")))
  pub properties : PlainProperties (properties_of schema)

-- The arguments have a value of this name.
abbrev pub Present : Text → Fields → Type 0
Present name end = ⊥
Present name (field key v rest) = (key ≡ name) ⊎ Present name rest

has-Present :
    (arguments : Fields) (name : Text) → (has arguments name ≡ true) ↔ Present name arguments
unfolding has
has-Present end name = (λ h. absurd (cc h), λ h. absurd h)
has-Present (field key v rest) name = (
  λ h. elim (Bool-cases (text_eq key name)) [
    | inl here ↦ inl ((text_eq_iff key name).0 here)
    | inr other ↦ inr ((has-Present rest name).0 (ground (arith, h, other)))
  ],
  λ h. elim h [
    | inl same ↦ ground (arith, (text_eq_iff key name).1 same)
    | inr later ↦ ground (arith, (has-Present rest name).1 later)
  ],
)

abbrev pub AllPresent : Items → Fields → Type 0
AllPresent nil arguments = Unit
AllPresent (cons (str name) rest) arguments = Present name arguments × AllPresent rest arguments
AllPresent (cons _ rest) arguments = ⊥

abbrev pub RequiredHolds : Option Items → Fields → Type 0
RequiredHolds none arguments = Unit
RequiredHolds (some names) arguments = AllPresent names arguments

matches_any-AnyType :
    (v : Json) (names : Items)
    → all_strings names ≡ true
    → ((matches_any v names ≡ ok true) × AnyType v names)
      ⊎ ((matches_any v names ≡ ok false) × (¬ (AnyType v names)))
unfolding matches_type all_strings
matches_any-AnyType v nil h = inr (refl, λ x. x)
matches_any-AnyType v (cons (str name) rest) h = elim (Bool-cases (check name v)) [
  | inl y ↦ inl (ground arith, inl ((check-HasType name v).0 y))
  | inr n ↦ elim (matches_any-AnyType v rest h) [
    | inl (e, a) ↦ inl (ground arith, inr a)
    | inr (e, a) ↦ inr (
      ground arith,
      λ b. elim b [ inl y ↦ absurd (ground (arith, n, (check-HasType name v).1 y)) | inr z ↦ a z ],
    )
  ]
]
matches_any-AnyType v (cons null rest) h = cc
matches_any-AnyType v (cons (bool _) rest) h = cc
matches_any-AnyType v (cons (int _) rest) h = cc
matches_any-AnyType v (cons (float _) rest) h = cc
matches_any-AnyType v (cons (arr _) rest) h = cc
matches_any-AnyType v (cons (obj _) rest) h = cc

check_name_iff :
    (key : Text) (v : Json) (name : Text)
    → (check_type key v (some (str name)) ≡ ok tt) ↔ ((name ≡ []) ⊎ (check name v ≡ true))
unfolding check_type matches_type
check_name_iff key v name = (λ e. ground arith, λ e. ground arith)

check_type_iff :
    (key : Text) (v : Json) (declared : Option Json)
    → PlainType declared
    → (check_type key v declared ≡ ok tt) ↔ TypeHolds v declared
unfolding check_type matches_type
check_type_iff key v none h = (λ _. tt, λ _. refl)
check_type_iff key v (some (str name)) h =
    let plain = check_name_iff key v name in
    (
      λ e. elim (plain.0 e) [ inl z ↦ inl z | inr y ↦ inr ((check-HasType name v).0 y) ],
      λ x. plain.1 (elim x [ inl z ↦ inl z | inr y ↦ inr ((check-HasType name v).1 y) ]),
    )
check_type_iff key v (some (arr nil)) h = (λ _. inl refl, λ _. refl)
check_type_iff key v (some (arr (cons t ts))) h = elim (matches_any-AnyType v (cons t ts) h) [
  | inl (e, a) ↦ (λ _. inr a, λ _. rw (e, ◌>>=◌))
  | inr (e, a) ↦ (λ x. absurd (refused e x), λ x. elim x [ inl z ↦ cc | inr z ↦ absurd (a z) ])
]
  where
    refused :
        matches_any v (cons t ts) ≡ ok false → check_type key v (some (arr (cons t ts))) ≡ ok tt → ⊥
    refused e x = ground arith
check_type_iff key v (some null) h = absurd h
check_type_iff key v (some (bool _)) h = absurd h
check_type_iff key v (some (int _)) h = absurd h
check_type_iff key v (some (float _)) h = absurd h
check_type_iff key v (some (obj _)) h = absurd h

check_required_iff :
    (names : Items) (arguments : Fields)
    → all_strings names ≡ true
    → (check_required names arguments ≡ ok tt) ↔ AllPresent names arguments
unfolding check_required all_strings
check_required_iff nil arguments h = (λ _. tt, λ _. refl)
check_required_iff (cons (str name) rest) arguments h =
    let (forth, back) = check_required_iff rest arguments h in
    let here = has-Present arguments name in
    (λ e. (here.0 (ground arith), forth (ground arith)), λ e. ground (arith, here.1 e.0, back e.1))
check_required_iff (cons null rest) arguments h = cc
check_required_iff (cons (bool _) rest) arguments h = cc
check_required_iff (cons (int _) rest) arguments h = cc
check_required_iff (cons (float _) rest) arguments h = cc
check_required_iff (cons (arr _) rest) arguments h = cc
check_required_iff (cons (obj _) rest) arguments h = cc

then_left : (m n : Checks (Unit {0})) → (m >>= λ _. n) ≡ ok tt → m ≡ ok tt
then_left (ok tt) n h = refl
then_left (err e) n h = cc

then_right : (m n : Checks (Unit {0})) → (m >>= λ _. n) ≡ ok tt → n ≡ ok tt
then_right (ok _) n h = h
then_right (err e) n h = cc

required_at :
    (names : Option Items) (arguments : Fields)
    → PlainRequired names
    → (elim names as (λ _. Checks (Unit {0})) [
      | some xs ↦ check_required xs arguments
      | none ↦ ok tt
    ]
        ≡ ok tt)
      ↔ RequiredHolds names arguments
required_at none arguments h = (λ _. tt, λ _. refl)
required_at (some names) arguments h = check_required_iff names arguments h

module _ (same : Json → Json → Bool) where
  -- One of the values is the same.
  abbrev pub AnySame : Json → Items → Type 0
  AnySame v nil = ⊥
  AnySame v (cons x xs) = (same v x ≡ true) ⊎ AnySame v xs

  contains-AnySame : (v : Json) (xs : Items) → (contains same v xs ≡ true) ↔ AnySame v xs
  unfolding contains
  contains-AnySame v nil = (λ h. absurd (cc h), λ h. absurd h)
  contains-AnySame v (cons x xs) = (
    λ h. elim (Bool-cases (same v x)) [
      | inl here ↦ inl here
      | inr other ↦ inr ((contains-AnySame v xs).0 (ground (arith, h, other)))
    ],
    λ h. elim h [
      | inl here ↦ ground (arith, here)
      | inr later ↦ ground (arith, (contains-AnySame v xs).1 later)
    ],
  )

  abbrev pub EnumHolds : Json → Option Items → Type 0
  EnumHolds v none = Unit
  EnumHolds v (some allowed) = AnySame v allowed

  -- The keywords that bear on one argument, by its property's specification.
  abbrev pub ArgumentHolds : Bool → Json → Option Json → Type 0
  ArgumentHolds closed v none = closed ≡ false
  ArgumentHolds closed v (some (obj spec)) =
      TypeHolds v (get spec (codes "type")) × EnumHolds v (array_of (get spec (codes "enum")))
  ArgumentHolds closed v (some _) = Unit

  abbrev pub AllHold : Fields → Bool → Fields → Type 0
  AllHold properties closed end = Unit
  AllHold properties closed (field key v rest) =
      ArgumentHolds closed v (get properties key) × AllHold properties closed rest

  -- The arguments conform to the schema.
  pub record Conforms (schema arguments : Fields) : Type 0 where
    pub required : RequiredHolds (array_of (get schema (codes "required"))) arguments
    pub each :
        AllHold
          (properties_of schema)
          (is_false (get schema (codes "additionalProperties")))
          arguments

  check_enum_iff :
      (key : Text) (v : Json) (allowed : Option Items)
      → (check_enum same key v allowed ≡ ok tt) ↔ EnumHolds v allowed
  unfolding check_enum
  check_enum_iff key v none = (λ _. tt, λ _. refl)
  check_enum_iff key v (some allowed) =
      let one = contains-AnySame v allowed in
      (λ e. one.0 (ground arith), λ h. ground (arith, one.1 h))

  PlainProperty-get :
      (properties : Fields) (key : Text) (spec : Fields)
      → PlainProperties properties
      → get properties key ≡ some (obj spec)
      → PlainType (get spec (codes "type"))
  unfolding get
  PlainProperty-get end key spec h e = cc
  PlainProperty-get (field k p rest) key spec h e = elim (Bool-cases (text_eq k key)) [
    | inl y ↦ let same : p ≡ obj spec = ground arith in subst PlainProperty same h.0
    | inr n ↦ PlainProperty-get rest key spec h.1 (ground arith)
  ]

  argument_at :
      (properties : Fields) (closed : Bool) (key : Text) (v : Json) (found : Option Json)
      → PlainProperties properties
      → get properties key ≡ found
      → (check_argument same properties closed key v ≡ ok tt) ↔ ArgumentHolds closed v found
  unfolding check_argument
  argument_at properties closed key v none h e = (λ x. ground arith, λ x. ground arith)
  argument_at properties closed key v (some (obj spec)) h e =
      let plain = PlainProperty-get properties key spec h e in
      let type_iff = check_type_iff key v (get spec (codes "type")) plain in
      let enum_iff = check_enum_iff key v (array_of (get spec (codes "enum"))) in
      rw (e, check_argument)
        (
          λ x. (
            type_iff.0 (then_left _ _ x),
            enum_iff.0 (then_right (check_type key v (get spec (codes "type"))) _ x),
          ),
          λ x. rw (type_iff.1 x.0, ◌>>=◌) (enum_iff.1 x.1),
        )
  argument_at properties closed key v (some null) h e = (λ _. tt, λ _. rw (e, check_argument))
  argument_at properties closed key v (some (bool _)) h e = (λ _. tt, λ _. rw (e, check_argument))
  argument_at properties closed key v (some (int _)) h e = (λ _. tt, λ _. rw (e, check_argument))
  argument_at properties closed key v (some (float _)) h e = (λ _. tt, λ _. rw (e, check_argument))
  argument_at properties closed key v (some (str _)) h e = (λ _. tt, λ _. rw (e, check_argument))
  argument_at properties closed key v (some (arr _)) h e = (λ _. tt, λ _. rw (e, check_argument))

  check_argument_iff :
      (properties : Fields) (closed : Bool) (key : Text) (v : Json)
      → PlainProperties properties
      → (check_argument same properties closed key v ≡ ok tt)
        ↔ ArgumentHolds closed v (get properties key)
  check_argument_iff properties closed key v h =
      argument_at properties closed key v (get properties key) h refl

  check_arguments_iff :
      (properties : Fields) (closed : Bool) (arguments : Fields)
      → PlainProperties properties
      → (check_arguments same properties closed arguments ≡ ok tt)
        ↔ AllHold properties closed arguments
  unfolding check_arguments
  check_arguments_iff properties closed end h = (λ _. tt, λ _. refl)
  check_arguments_iff properties closed (field key v rest) h =
      let (forth, back) = check_arguments_iff properties closed rest h in
      let first = check_argument_iff properties closed key v h in
      (
        λ e. (first.0 (ground arith), forth (ground arith)),
        λ e. ground (arith, first.1 e.0, back e.1),
      )

  -- Over a schema that uses `type` and `required` as JSON Schema has them, validation passes exactly
  -- when every required name is present, every argument that has an object as its specification is
  -- a value of one of the types and one of the enumerated values that it gives, if it gives any (a
  -- Boolean is no number, and a type name outside the seven accepts every value), and, if additional
  -- properties are forbidden, every argument has a specification.
  pub validate_iff_Conforms :
      (schema arguments : Fields)
      → IsPlain schema
      → (validate_tool_arguments same schema arguments ≡ ok tt) ↔ Conforms schema arguments
  unfolding validate_tool_arguments
  validate_iff_Conforms schema arguments h =
      let required_iff =
        required_at (array_of (get schema (codes "required"))) arguments h.required in
      let each_iff =
        check_arguments_iff (properties_of schema)
          (is_false (get schema (codes "additionalProperties"))) arguments h.properties in
      (
        λ e. record {
          required = required_iff.0 (then_left _ _ e);
          each = each_iff.0 (then_right _ _ e);
        },
        λ c. rw (required_iff.1 c.required, ◌>>=◌) (each_iff.1 c.each),
      )
