-- ===== src/Tables.antt =====
-- order/models.py: the orders and outbox tables of one database, and what their columns refuse.
pub mod Inserts
use Prim.Native.Char.{code}
use Prim.Native.Nat.{◌^◌}
use outbox_fanout.Prelude.{
  false, ◌+◌, ◌*◌, ltb, ℕ, String, Bool, true, ◌&&◌, ◌||◌, not, Option, none, some, List, [], ◌∷◌,
  ◌++◌, leb, any, chars, is_none, ◌==◌, if◌then◌else◌,
}
use outbox_fanout.Outcome.{Outcome, ok, raise, integrity_error, database_error}
use outbox_fanout.Json.{Fields}
use outbox_fanout.Formats.{Uuid, Timestamp, Decimal}

-- class Order
pub record Order : Type 0 where
  pub id : Uuid
  pub customer_id : String
  pub item : String
  pub amount : Decimal
  pub created_at : Timestamp

-- class OutboxEvent. `event_type` may be None on an object that is not stored yet.
pub record OutboxEvent : Type 0 where
  pub id : Uuid
  pub order_id : Uuid
  pub event_type : Option String
  pub payload : Fields
  pub published : Bool
  pub created_at : Timestamp
  pub published_at : Option Timestamp
  pub attempts : ℕ
  pub last_error : Option String
  pub failed_at : Option Timestamp

pub record Tables : Type 0 where
  pub orders : List Order
  pub outbox : List OutboxEvent

-- String(n): a longer text is a DataError.
abbrev pub fits : ℕ → Option String → Bool
fits n none = true
fits n (some s) = leb (chars s) n

-- A text with a NUL is a DataError too: PostgreSQL's texts have none.
abbrev pub has_nul : String → Bool
has_nul String.[] = false
has_nul (String.◌∷◌ c s) = code c == 0 || has_nul s

-- Numeric(12, 2): the number is rounded to hundredths, half up, and the result has twelve digits at
-- most; anything else is a DataError.
abbrev pub is_in_range : Decimal → Bool
is_in_range d = ltb (2 * 100 * d.coefficient + 10 ^ d.places) (2 * 10 ^ 12 * 10 ^ d.places)

abbrev pub has_order : Uuid → List Order → Bool
has_order id = any (λ o. o.id == id)

abbrev pub has_event : Uuid → List OutboxEvent → Bool
has_event id = any (λ e. e.id == id)

-- The columns of an order take its texts and its amount.
abbrev pub takes_order : Order → Bool
takes_order o =
    fits 64 (some o.customer_id)
    && not (has_nul o.customer_id)
    && fits 255 (some o.item)
    && not (has_nul o.item)
    && is_in_range o.amount

-- INSERT INTO orders: the values are bound and converted before the primary key is looked at.
unfoldable pub insert_order : Order → Tables → Outcome Unit × Tables
insert_order o t =
    if not (takes_order o)
    then (raise database_error, t)
    else if has_order o.id t.orders
    then (raise integrity_error, t)
    else (ok tt, record t { orders = t.orders ++ o ∷ [] })

-- INSERT INTO outbox: the primary key, NOT NULL, the foreign key and the lengths
unfoldable pub insert_event : OutboxEvent → Tables → Outcome Unit × Tables
insert_event e t =
    if has_event e.id t.outbox || is_none e.event_type || not (has_order e.order_id t.orders)
    then (raise integrity_error, t)
    else if fits 64 e.event_type && fits 500 e.last_error
    then (ok tt, record t { outbox = t.outbox ++ e ∷ [] })
    else (raise database_error, t)
