-- ===== src/Json.antt =====
-- The values that `json.loads` returns, as Python objects. A float is its IEEE 754 bit pattern.
use xymphony_voice.Base.{ℕ, Bool, true, false, Option, none, some, if◌then◌else◌, ◌≡◌, refl, arith}
use xymphony_voice.Base.Text.{Text, text_eq, text_eq_refl}

-- Python's `int`: `negsuc n` is -(n + 1).
pub data ℤ : Type 0 where
  pos : ℕ → ℤ
  negsuc : ℕ → ℤ

mutual
  pub data Json : Type 0 where
    null : Json
    bool : Bool → Json
    int : ℤ → Json
    float : ℕ → Json
    str : Text → Json
    arr : Items → Json
    obj : Fields → Json

  pub data Items : Type 0 where
    nil : Items
    cons : Json → Items → Items

  pub data Fields : Type 0 where
    end : Fields
    field : Text → Json → Fields → Fields

-- `d.get(key)`
unfoldable pub get : Fields → Text → Option Json
get end k = none
get (field j v d) k = if text_eq j k then some v else get d k

-- `key in d`
unfoldable pub has : Fields → Text → Bool
has end k = false
has (field j v d) k = if text_eq j k then true else has d k

-- `{**d, key: value}`: a key that is there keeps its place
unfoldable pub with_key : Fields → Text → Json → Fields
with_key end k v = field k v end
with_key (field j w d) k v = if text_eq j k then field j v d else field j w (with_key d k v)

pub get-with_key : (d : Fields) (k : Text) (v : Json) → get (with_key d k v) k ≡ some v
unfolding get with_key
get-with_key end k v = rw (text_eq_refl k) refl
get-with_key (field j w d) k v = ground (arith, get-with_key d k v)
