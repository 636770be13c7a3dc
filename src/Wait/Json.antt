-- ===== src/Wait/Json.antt =====
-- The values of a JSON document, and Python's `str`, `bool` and `dict.get` on them.
use readyagents_core.Common.{
  ℕ, String, Bool, true, false, not, Option, none, some, List, [], ◌∷◌, ◌==◌, if◌then◌else◌, str_eq,
}

mutual
  pub data Json : Type 0 where
    null : Json
    flag : Bool → Json
    number : ℕ → Json
    text : String → Json
    array : Items → Json
    object : Fields → Json

  pub data Items : Type 0 where
    nil : Items
    cons : Json → Items → Items

  pub data Fields : Type 0 where
    end : Fields
    field : String → Json → Fields → Fields

abbrev pub has_fields : Fields → Bool
has_fields end = false
has_fields (field key value rest) = true

abbrev pub is_truthy : Json → Bool
is_truthy null = false
is_truthy (flag b) = b
is_truthy (number n) = not (n == 0)
is_truthy (text s) = not (str_eq s "")
is_truthy (array nil) = false
is_truthy (array (cons x xs)) = true
is_truthy (object fields) = has_fields fields

unfoldable pub get_field : String → Fields → Option Json
get_field key end = none
get_field key (field name value rest) =
    let later = get_field key rest in if str_eq name key then some value else later

-- `shown` is `str` of a number or of a collection.
module _ (shown : Json → String) where
  abbrev pub str_of : Json → String
  str_of null = "None"
  str_of (flag b) = if b then "True" else "False"
  str_of (text s) = s
  str_of value = shown value

  -- `str(value or other)`, where the value may be missing.
  abbrev pub str_or : String → Option Json → String
  str_or other none = other
  str_or other (some value) = if is_truthy value then str_of value else other

  unfoldable pub str_items : Items → List String
  str_items nil = []
  str_items (cons x xs) = str_of x ∷ str_items xs

abbrev pub truthy_or : Bool → Option Json → Bool
truthy_or other none = other
truthy_or other (some value) = is_truthy value
