-- ===== src/Claims.antt =====
-- What Billing and Shipping share: reading an event, and INSERT … ON CONFLICT DO NOTHING.
pub mod Laws
use outbox_fanout.Prelude.{
  ℕ, String, Bool, true, false, Option, none, some, List, [], ◌∷◌, ◌++◌, any, leb, ◌==◌, chars,
  if◌then◌else◌,
}
use outbox_fanout.Outcome.{
  Exc, type_error, value_error, invalid_operation, integrity_error, database_error, other_error,
  Outcome, ok, raise, exit,
}
use outbox_fanout.Db.{Database}
use outbox_fanout.Json.{Value, null, bool, num, real, str, arr, obj, subscript}
use outbox_fanout.Formats.{Formats, Uuid, Decimal}

infixl 5 ◌>>=◌
abbrev pub ◌>>=◌ : {A B : Type 0} → Outcome A → (A → Outcome B) → Outcome B
ok a >>= k = k a
raise e >>= k = raise e
exit code >>= k = exit code

abbrev pub or_raise : {A : Type 0} → Exc → Option A → Outcome A
or_raise e none = raise e
or_raise e (some a) = ok a

module _ (f : Formats) where
  -- `uuid.UUID(v)`: a ValueError on a text that is no UUID; on what is no text a TypeError for None,
  -- and else an AttributeError
  unfoldable pub uuid_of_value : Value → Outcome Uuid
  uuid_of_value (str s) = or_raise value_error (f.uuid_of s)
  uuid_of_value null = raise type_error
  uuid_of_value _ = raise other_error

  -- `Decimal(v)`
  unfoldable pub decimal_of_value : Value → Outcome Decimal
  decimal_of_value (str s) = or_raise invalid_operation (f.decimal_of s)
  decimal_of_value (num n) = ok (record { coefficient = n; places = 0 })
  decimal_of_value (real s) = or_raise invalid_operation (f.decimal_of_real s)
  decimal_of_value (bool true) = ok (record { coefficient = 1; places = 0 })
  decimal_of_value (bool false) = ok (record { coefficient = 0; places = 0 })
  decimal_of_value (arr vs) = or_raise value_error (f.decimal_of_items vs)
  decimal_of_value _ = raise type_error

abbrev checked_text : ℕ → String → Outcome String
checked_text n s = if leb (chars s) n then ok s else raise database_error

module _ (db : Database) where
  -- A value bound to a `String(n)` column that is NOT NULL.
  unfoldable pub text_column : ℕ → Value → Outcome String
  text_column n (str s) = checked_text n s
  text_column n null = raise integrity_error
  text_column n v = or_raise database_error (db.adapt v) >>= checked_text n

  -- A value bound to a `Numeric(12, 2)` column.
  unfoldable pub numeric_column : Decimal → Outcome Decimal
  numeric_column d = or_raise database_error (db.numeric d)

module _ {R : Type 0} (key id : R → ℕ) where
  -- The INSERT with its RETURNING: True for a new row, False where the key is taken. The primary key
  -- has a constraint of its own, which the clause does not name.
  abbrev pub insert_once : R → List R → Outcome Bool × List R
  insert_once row rows =
      if any (λ r. key r == key row) rows
      then (ok false, rows)
      else if any (λ r. id r == id row) rows
      then (raise integrity_error, rows)
      else (ok true, rows ++ row ∷ [])

  -- The same where the row may be refused first, by the types of its columns.
  abbrev pub insert_checked : Outcome R → List R → Outcome Bool × List R
  insert_checked (ok row) rows = insert_once row rows
  insert_checked (raise e) rows = (raise e, rows)
  insert_checked (exit code) rows = (exit code, rows)
