-- ===== src/Json.antt =====
-- The JSON values that src/recallpack passes around: tool output, evidence and results, with what
-- the code uses of Python's `dict`. A float is its 64-bit pattern.
use recallpack.Base.{
  ℕ, String, Bool, true, false, ◌&&◌, ◌||◌, List, [], ◌∷◌, Option, none, some, str_eq,
  if◌then◌else◌,
}

-- `pos n` is n, `negsuc n` is -(n + 1).
pub data ℤ : Type 0 where
  pos : ℕ → ℤ
  negsuc : ℕ → ℤ

mutual
  pub data Json : Type 0 where
    null : Json
    bool : Bool → Json
    int : ℤ → Json
    float : ℕ → Json
    str : String → Json
    arr : Items → Json
    obj : Fields → Json

  pub data Items : Type 0 where
    nil : Items
    cons : Json → Items → Items

  pub data Fields : Type 0 where
    end : Fields
    field : String → Json → Fields → Fields

abbrev pub items : Items → List Json
items nil = []
items (cons j js) = j ∷ items js

-- `list(strings)` as a JSON array.
abbrev pub texts : List String → Items
texts [] = nil
texts (s ∷ ss) = cons (str s) (texts ss)

-- `d.get(key)`: None where the key is missing.
abbrev pub get : String → Fields → Json
get key end = null
get key (field k v fs) = if str_eq k key then v else get key fs

abbrev pub has_key : String → Fields → Bool
has_key key end = false
has_key key (field k v fs) = str_eq k key || has_key key fs

-- `d[key] = value`
abbrev pub set_field : String → Json → Fields → Fields
set_field key v end = field key v end
set_field key v (field k w fs) =
    if str_eq k key then field k v fs else field k w (set_field key v fs)

abbrev pub member : String → List String → Bool
member s [] = false
member s (t ∷ ts) = str_eq t s || member s ts

abbrev pub keys_within : List String → Fields → Bool
keys_within names end = true
keys_within names (field k v fs) = member k names && keys_within names fs

abbrev pub has_keys : List String → Fields → Bool
has_keys [] fs = true
has_keys (k ∷ ks) fs = has_key k fs && has_keys ks fs

-- `set(d) == {names}`
abbrev pub keys_are : List String → Fields → Bool
keys_are names fs = has_keys names fs && keys_within names fs

abbrev pub is_null : Json → Bool
is_null null = true
is_null _ = false

abbrev pub is_str : Json → Bool
is_str (str s) = true
is_str _ = false

-- `j == "text"`
abbrev pub is_text : Json → String → Bool
is_text (str s) t = str_eq s t
is_text _ t = false

-- `isinstance(j, str) and bool(j)`
abbrev pub nonempty_text : Json → Bool
nonempty_text (str s) = if str_eq s "" then false else true
nonempty_text _ = false

-- `j == []`
abbrev pub is_empty_list : Json → Bool
is_empty_list (arr nil) = true
is_empty_list _ = false

abbrev pub as_fields : Json → Option Fields
as_fields (obj fs) = some fs
as_fields _ = none

abbrev pub or_null : Option String → Json
or_null none = null
or_null (some s) = str s

-- No text is listed twice.
abbrev pub distinct_texts : List String → Bool
distinct_texts [] = true
distinct_texts (s ∷ ss) = (if member s ss then false else true) && distinct_texts ss
