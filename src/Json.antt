-- ===== src/Json.antt =====
-- The dynamic values that `json.loads` returns, and how the source reads them. An integer is
-- `int n`, or `negative n` for -(n + 1); a float keeps its literal. Python reads a key that is
-- missing and a key that holds `null` alike, as `None`.
use gpt_trace_extractor_for.Base.{
  ℕ, String, Bool, true, false, Option, none, some, List, [], ◌∷◌, ◌==◌, string_eq, if◌then◌else◌,
}

mutual
  pub data Value : Type 0 where
    null : Value
    bool : Bool → Value
    int negative : ℕ → Value
    float : String → Value
    text : String → Value
    array : Items → Value
    object : Fields → Value

  pub data Items : Type 0 where
    nil : Items
    cons : Value → Items → Items

  pub data Fields : Type 0 where
    end : Fields
    field : String → Value → Fields → Fields

-- `fields.get(key)`
abbrev pub get : Fields → String → Value
get end key = null
get (field k v fields) key = if k == key then v else get fields key

-- `fields.get(key, default)`
abbrev pub get_default : Fields → String → Value → Value
get_default end key default = default
get_default (field k v fields) key default = if k == key then v else get_default fields key default

abbrev pub keys : Fields → List String
keys end = []
keys (field k v fields) = k ∷ keys fields

-- `isinstance(value, dict)`, `isinstance(value, str)`, with what the value holds
abbrev pub as_object : Value → Option Fields
as_object (object fields) = some fields
as_object null = none
as_object _ = none

abbrev pub as_text : Value → Option String
as_text (text s) = some s
as_text null = none
as_text _ = none

abbrev pub is_object : Value → Bool
is_object (object fields) = true
is_object null = false
is_object _ = false

abbrev pub is_true : Value → Bool
is_true (bool b) = b
is_true null = false
is_true _ = false

abbrev pub is_null : Value → Bool
is_null null = true
is_null (bool b) = false
is_null _ = false

-- `value == "literal"` for a value of any type
abbrev pub is_text : Value → String → Bool
is_text (text s) t = s == t
is_text null t = false
is_text _ t = false
