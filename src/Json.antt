-- ===== src/Json.antt =====
-- The values of Python's `json`, and subscripting them: `v["key"]`, `v.get("key")`, `"key" in v`.
-- A number that is no natural number is kept by its literal. The code reads a dict by its keys
-- only.
use outbox_fanout.Prelude.{
  ℕ, String, Bool, false, not, is_none, Option, none, some, str_eq, if◌then◌else◌,
}
use outbox_fanout.Outcome.{Outcome, ok, raise, key_error, type_error}

mutual
  pub data Value : Type 0 where
    null : Value
    bool : Bool → Value
    num : ℕ → Value
    real : String → Value
    str : String → Value
    obj : Fields → Value
    arr : Items → Value

  pub data Fields : Type 0 where
    empty_object : Fields
    entry : String → Value → Fields → Fields

  pub data Items : Type 0 where
    empty_list : Items
    element : Value → Items → Items

unfoldable pub get : String → Fields → Option Value
get k empty_object = none
get k (entry j v fs) = if str_eq j k then some v else get k fs

abbrev pub or_key_error : Option Value → Outcome Value
or_key_error none = raise key_error
or_key_error (some v) = ok v

-- `v["key"]`: a KeyError on a dict without the key, a TypeError on anything else
unfoldable pub subscript : Value → String → Outcome Value
unfolding get
subscript (obj fs) k = or_key_error (get k fs)
subscript _ k = raise type_error

-- A text or `None`, as `json.dumps` writes it.
abbrev pub of_option : Option String → Value
of_option none = null
of_option (some s) = str s

-- `k in d`
abbrev pub has_key : String → Fields → Bool
has_key k fs = not (is_none (get k fs))

-- `{k: v for k, v in d.items() if k != key}`
unfoldable pub without : String → Fields → Fields
without k empty_object = empty_object
without k (entry j v fs) = let rest = without k fs in if str_eq j k then rest else entry j v rest

-- `v == "text"`
abbrev pub is_text : String → Option Value → Bool
is_text s (some (str r)) = str_eq r s
is_text s _ = false
