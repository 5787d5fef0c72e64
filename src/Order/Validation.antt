-- ===== src/Order/Validation.antt =====
-- order/schemas.py: the request body, and POST /orders with it.
-- pydantic is a library outside the repository: a parameter that reads a field of a type under the
-- constraints of its `Field`, and of which the documented meaning of the constraints is used.
use Prim.Native.Nat.{◌^◌}
use outbox_fanout.Prelude.{
  ℕ, ◌*◌, ◌-◌, ◌≤◌, ◌<◌, String, ◌≡◌, Option, none, some, List, [], ◌∷◌, chars,
}
use outbox_fanout.Outcome.{Outcome}
use outbox_fanout.Db.{World, Database}
use outbox_fanout.Json.{Value, obj, get}
use outbox_fanout.Formats.{Formats, Decimal}
use outbox_fanout.Tables.{Order, Tables}
use outbox_fanout.Config.{Config}
use outbox_fanout.Host.{Host}
use outbox_fanout.Order.Service.{OrderCreate}
use outbox_fanout.Order.Routes.{create_order}

-- `none` is a ValidationError.
pub record Pydantic : Type 0 where
  -- a `str` under min_length and max_length
  pub text_field : ℕ → ℕ → Value → Option String
  -- a `Decimal` under gt, max_digits and decimal_places
  pub decimal_field : ℕ → ℕ → ℕ → Value → Option Decimal

-- What pydantic documents of the constraints: the length is between the bounds; the number is greater
-- than `gt`, has no digit other than 0 behind the allowed places, and at most the other digits in front
-- of its point.
pub record IsDocumented (p : Pydantic) : Type 0 where
  pub text-bounds :
      (least most : ℕ) (v : Value) (s : String)
      → p.text_field least most v ≡ some s
      → (least ≤ chars s) × (chars s ≤ most)
  pub decimal-gt :
      (gt digits places : ℕ) (v : Value) (d : Decimal)
      → p.decimal_field gt digits places v ≡ some d
      → gt * 10 ^ d.places < d.coefficient
  pub decimal-digits :
      (gt digits places : ℕ) (v : Value) (d : Decimal)
      → p.decimal_field gt digits places v ≡ some d
      → d.coefficient < 10 ^ (digits - places) * 10 ^ d.places
  pub decimal-places :
      (gt digits places : ℕ) (v : Value) (d : Decimal)
      → p.decimal_field gt digits places v ≡ some d
      → (n : ℕ) × (d.coefficient * 10 ^ places ≡ n * 10 ^ d.places)

infixl 5 ◌>>=◌
abbrev pub ◌>>=◌ : {A B : Type 0} → Option A → (A → Option B) → Option B
none >>= f = none
some a >>= f = f a

module _ (p : Pydantic) where
  -- `Field(min_length=1, max_length=64)`, and so on: the fields of OrderCreate, which are all required
  unfoldable pub customer_id_of : Value → Option String
  customer_id_of v = p.text_field 1 64 v

  unfoldable pub item_of : Value → Option String
  item_of v = p.text_field 1 255 v

  unfoldable pub amount_of : Value → Option Decimal
  amount_of v = p.decimal_field 0 12 2 v

  -- The body is an object with the fields of OrderCreate. As `model_config` sets no `extra`, pydantic
  -- ignores any other field.
  unfoldable pub validate : Value → Option OrderCreate
  unfolding customer_id_of item_of amount_of get
  validate (obj fields) = do
    customer_id ← get "customer_id" fields
    customer_id ← customer_id_of customer_id
    item ← get "item" fields
    item ← item_of item
    amount ← get "amount" fields
    amount ← amount_of amount
    some (record { customer_id = customer_id; item = item; amount = amount })
  validate v = none

-- The response of POST /orders: FastAPI answers a body that is not valid with 422 by itself, and
-- otherwise the endpoint answers.
pub data Response : Type 0 where
  unprocessable : Response
  answered : Outcome Order → Response

module _ (f : Formats) (db : Database) (host : Host) (c : Config) (p : Pydantic) where
  abbrev pub respond :
      Option OrderCreate → World Tables (Unit {0}) → Response × World Tables (Unit {0})
  respond none w = (unprocessable, w)
  respond (some body) w = let (o, w') = create_order f db host c body w in (answered o, w')

  -- POST /orders with the JSON value of its body
  unfoldable pub post_order : Value → World Tables (Unit {0}) → Response × World Tables (Unit {0})
  unfolding validate
  post_order v w = respond (validate p v) w

  -- Any number of bodies, one after the other.
  unfoldable pub post_orders : List Value → World Tables (Unit {0}) → World Tables (Unit {0})
  post_orders [] w = w
  post_orders (v ∷ vs) w = post_orders vs (post_order v w).1
