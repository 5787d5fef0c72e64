-- ===== src/Formats.antt =====
-- The texts that the services exchange: `str` and the constructors of `uuid.UUID` and
-- `decimal.Decimal`, `datetime.isoformat`, `json.dumps` and `json.loads`. A client takes this record
-- as a parameter and uses of it only that reading gives back what was written.
-- A UUID is its 128-bit number, a time its microseconds, a Decimal its coefficient and the number
-- of digits behind its point; a negative one is not told.
use outbox_fanout.Prelude.{ℕ, String, ◌≡◌, Option, some}
use outbox_fanout.Json.{Value, Items, str}

abbrev pub Uuid : Type 0
Uuid = ℕ

abbrev pub Timestamp : Type 0
Timestamp = ℕ

pub record Decimal : Type 0 where
  pub coefficient : ℕ
  pub places : ℕ

pub record Formats : Type 0 where
  pub uuid_text : Uuid → String
  -- `none` is a ValueError
  pub uuid_of : String → Option Uuid
  pub decimal_text : Decimal → String
  -- `none` is an InvalidOperation
  pub decimal_of : String → Option Decimal
  -- `Decimal(v)` of a JSON number that is no natural one
  pub decimal_of_real : String → Option Decimal
  -- `Decimal(v)` of a list, read as sign, digits and exponent; `none` is a ValueError
  pub decimal_of_items : Items → Option Decimal
  -- a value in an f-string
  pub str_of : Value → String
  pub isoformat : Timestamp → String
  pub dumps : Value → String
  -- `none` is a JSONDecodeError
  pub loads : String → Option Value
  pub uuid_of-uuid_text : (u : Uuid) → uuid_of (uuid_text u) ≡ some u
  pub decimal_of-decimal_text : (d : Decimal) → decimal_of (decimal_text d) ≡ some d
  pub loads-dumps : (v : Value) → loads (dumps v) ≡ some v
  pub str_of-str : (s : String) → str_of (str s) ≡ s
