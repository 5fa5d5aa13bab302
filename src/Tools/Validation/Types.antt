-- ===== src/Tools/Validation/Types.antt =====
-- The type names of _TYPE_CHECKERS in packages/tools/src/xymphony_tools/validation.py, said by the
-- names that each JSON value answers to.
use xymphony_voice.Base.{
  ◌≡◌, refl, sym, ◌∙◌, ◌⊎◌, inl, inr, ◌↔◌, Bool, true, false, not, ◌||◌, List, [], ◌∷◌, arith,
  Bool-cases, subst,
}
use xymphony_voice.Base.Text.{Text, codes, text_eq, text_eq_iff, OneOf}
use xymphony_voice.Json.{Json, null, bool, int, float, str, arr, obj}
use xymphony_voice.Tools.Validation.{check, kind, is_number, same_kind}

-- An integer is a number; a Boolean is neither.
abbrev pub names_of : Json → List Text
names_of null = codes "null" ∷ []
names_of (bool _) = codes "boolean" ∷ []
names_of (int _) = codes "integer" ∷ codes "number" ∷ []
names_of (float _) = codes "number" ∷ []
names_of (str _) = codes "string" ∷ []
names_of (arr _) = codes "array" ∷ []
names_of (obj _) = codes "object" ∷ []

abbrev pub known_names : List Text
known_names =
    codes "string"
    ∷ codes "integer"
    ∷ codes "number"
    ∷ codes "boolean"
    ∷ codes "array"
    ∷ codes "object"
    ∷ codes "null"
    ∷ []

-- The name is one of the value's, or no type's.
abbrev pub HasType : Text → Json → Type 0
HasType name v = OneOf name (names_of v) ⊎ ¬ (OneOf name known_names)

is_name : Text → List Text → Bool
is_name name [] = false
is_name name (n ∷ ns) = text_eq name n || is_name name ns

is_name-OneOf : (name : Text) (ns : List Text) → (is_name name ns ≡ true) ↔ OneOf name ns
unfolding is_name
is_name-OneOf name [] = (λ h. absurd (cc h), λ h. absurd h)
is_name-OneOf name (n ∷ ns) = (
  λ h. elim (Bool-cases (text_eq name n)) [
    | inl here ↦ inl ((text_eq_iff name n).0 here)
    | inr other ↦ inr ((is_name-OneOf name ns).0 (ground (arith, h, other)))
  ],
  λ h. elim h [
    | inl same ↦ ground (arith, (text_eq_iff name n).1 same)
    | inr later ↦ ground (arith, (is_name-OneOf name ns).1 later)
  ],
)

has_type : Text → Json → Bool
has_type name v = is_name name (names_of v) || not (is_name name known_names)

Agrees : Text → Type 0
Agrees name = (v : Json) → check name v ≡ has_type name v

at_string : Agrees (codes "string")
unfolding Agrees check has_type is_name text_eq kind is_number same_kind
at_string v = ground arith

at_integer : Agrees (codes "integer")
unfolding Agrees check has_type is_name text_eq kind is_number same_kind
at_integer v = ground arith

at_number : Agrees (codes "number")
unfolding Agrees check has_type is_name text_eq kind is_number same_kind
at_number v = ground arith

at_boolean : Agrees (codes "boolean")
unfolding Agrees check has_type is_name text_eq kind is_number same_kind
at_boolean v = ground arith

at_array : Agrees (codes "array")
unfolding Agrees check has_type is_name text_eq kind is_number same_kind
at_array v = ground arith

at_object : Agrees (codes "object")
unfolding Agrees check has_type is_name text_eq kind is_number same_kind
at_object v = ground arith

at_null : Agrees (codes "null")
unfolding Agrees check has_type is_name text_eq kind is_number same_kind
at_null v = ground arith

-- A name outside the table accepts every value; the value's own names stand in the table.
unknown :
    (name : Text) (v : Json)
    → text_eq name (codes "string") ≡ false
    → text_eq name (codes "integer") ≡ false
    → text_eq name (codes "number") ≡ false
    → text_eq name (codes "boolean") ≡ false
    → text_eq name (codes "array") ≡ false
    → text_eq name (codes "object") ≡ false
    → text_eq name (codes "null") ≡ false
    → check name v ≡ has_type name v
unfolding check has_type is_name
unknown name v n0 n1 n2 n3 n4 n5 n6 =
    rw (n0, n1, n2, n3, n4, n5, n6) (ground (arith, n0, n1, n2, n3, n4, n5, n6))

agree :
    (name : Text) (known : Text) (v : Json)
    → Agrees known
    → text_eq name known ≡ true
    → check name v ≡ has_type name v
unfolding Agrees
agree name known v at e =
    subst (λ n. check n v ≡ has_type n v) (sym ((text_eq_iff name known).0 e)) (at v)

check-has_type : (name : Text) (v : Json) → check name v ≡ has_type name v
check-has_type name v = elim (Bool-cases (text_eq name (codes "string"))) [
  | inl y ↦ agree name (codes "string") v at_string y
  | inr n0 ↦ elim (Bool-cases (text_eq name (codes "integer"))) [
    | inl y ↦ agree name (codes "integer") v at_integer y
    | inr n1 ↦ elim (Bool-cases (text_eq name (codes "number"))) [
      | inl y ↦ agree name (codes "number") v at_number y
      | inr n2 ↦ elim (Bool-cases (text_eq name (codes "boolean"))) [
        | inl y ↦ agree name (codes "boolean") v at_boolean y
        | inr n3 ↦ elim (Bool-cases (text_eq name (codes "array"))) [
          | inl y ↦ agree name (codes "array") v at_array y
          | inr n4 ↦ elim (Bool-cases (text_eq name (codes "object"))) [
            | inl y ↦ agree name (codes "object") v at_object y
            | inr n5 ↦ elim (Bool-cases (text_eq name (codes "null"))) [
              | inl y ↦ agree name (codes "null") v at_null y
              | inr n6 ↦ unknown name v n0 n1 n2 n3 n4 n5 n6
            ]
          ]
        ]
      ]
    ]
  ]
]

-- The table's test accepts exactly the values of the type.
pub check-HasType : (name : Text) (v : Json) → (check name v ≡ true) ↔ HasType name v
unfolding has_type
check-HasType name v = (
  λ h.
      split (is_name name (names_of v)) (is_name name known_names) refl refl
        (sym (check-has_type name v) ∙ h),
  λ h. check-has_type name v ∙ joins h,
)
  where
    split :
        (own any : Bool)
        → is_name name (names_of v) ≡ own
        → is_name name known_names ≡ any
        → (is_name name (names_of v) || not (is_name name known_names)) ≡ true
        → HasType name v
    split true any a b h = inl ((is_name-OneOf name (names_of v)).0 a)
    split false true a b h = absurd (ground (arith, a, b, h))
    split false false a b h =
        inr (λ k. absurd (ground (arith, b, (is_name-OneOf name known_names).1 k)))

    joins : HasType name v → (is_name name (names_of v) || not (is_name name known_names)) ≡ true
    joins (inl own) = ground (arith, (is_name-OneOf name (names_of v)).1 own)
    joins (inr never) = go (is_name name known_names) refl
      where
        go :
            (b : Bool)
            → is_name name known_names ≡ b
            → (is_name name (names_of v) || not (is_name name known_names)) ≡ true
        go true e = absurd (never ((is_name-OneOf name known_names).0 e))
        go false e = ground (arith, e)
