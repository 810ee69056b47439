-- ===== src/Json.antt =====
-- JSON values as `JSON.parse` returns them: what the code's `typeof` tests and property reads see.
-- A number is a natural number, since no modelled code computes with a JSON number. An object has
-- each key once, so the first field with a key is the property.
use un_bien.Prelude.{
  ℕ, Bool, true, false, Option, none, some, List, [], ◌∷◌, Text, text_eq, if◌then◌else◌,
}

mutual
  pub data Value : Type 0 where
    null : Value
    bool : Bool → Value
    num : ℕ → Value
    str : Text → Value
    arr : Items → Value
    obj : Fields → Value

  pub data Items : Type 0 where
    nil : Items
    cons : Value → Items → Items

  pub data Fields : Type 0 where
    end : Fields
    field : Text → Value → Fields → Fields

unfoldable pub get_field : Fields → Text → Option Value
get_field end k = none
get_field (field j v fs) k = if text_eq j k then some v else get_field fs k

-- `value[k]`, for a key that no prototype has: `undefined` (here `none`) off objects too.
unfoldable pub member : Value → Text → Option Value
unfolding get_field
member (obj fs) k = get_field fs k
member (null) k = none
member (bool b) k = none
member (num n) k = none
member (str s) k = none
member (arr xs) k = none

unfoldable pub set_field : Fields → Text → Value → Fields
set_field end k v = field k v end
set_field (field j w fs) k v = if text_eq j k then field j v fs else field j w (set_field fs k v)

-- `{...value, [k]: v}` of an object.
unfoldable pub with_member : Value → Text → Value → Value
unfolding set_field
with_member (obj fs) k v = obj (set_field fs k v)
with_member o k v = obj (field k v end)

-- `typeof value === "string"`, with the string.
unfoldable pub as_text : Option Value → Option Text
as_text (some (str s)) = some s
as_text _ = none

-- `typeof value === "boolean"` and `value === true`.
unfoldable pub is_true : Option Value → Bool
is_true (some (bool b)) = b
is_true _ = false

-- `value && typeof value === "object"`, which arrays pass.
unfoldable pub is_object : Value → Bool
is_object (arr xs) = true
is_object (obj fs) = true
is_object _ = false

-- `value.type === t`
unfoldable pub has_type : Value → Text → Bool
unfolding member as_text
has_type v t = elim (as_text (member v type_key)) [ none ↦ false | some s ↦ text_eq s t ]
  where
    type_key : Text
    type_key = b't' ∷ b'y' ∷ b'p' ∷ b'e' ∷ []

unfoldable pub items_of_texts : List Text → Items
items_of_texts [] = nil
items_of_texts (t ∷ ts) = cons (str t) (items_of_texts ts)
