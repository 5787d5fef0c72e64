-- ===== src/Billing.antt =====
-- billing/service.py over the table of billing/models.py.
pub mod Laws
pub mod Deliveries
pub mod Main
use outbox_fanout.Prelude.{ℕ, String, Bool, List}
use outbox_fanout.Outcome.{Outcome, ok, raise, exit}
use outbox_fanout.Db.{World, Database, Action, Query, statement, session_scope}
use outbox_fanout.Json.{Value, subscript}
use outbox_fanout.Formats.{Formats, Uuid, Timestamp, Decimal}
use outbox_fanout.Host.{Host}
use outbox_fanout.Claims.{
  ◌>>=◌, uuid_of_value, decimal_of_value, text_column, numeric_column, insert_checked,
}

-- class BillingRecord
pub record BillingRecord : Type 0 where
  pub id : Uuid
  pub order_id : Uuid
  pub event_id : Uuid
  pub customer_id : String
  pub amount : Decimal
  pub processed_at : Timestamp

abbrev pub Billing : Type 0
Billing = World (List BillingRecord) (Unit {0})

-- The arguments of `.values(...)`, as Python evaluates them: the values that are bound.
pub record Bound : Type 0 where
  pub order_id : Uuid
  pub event_id : Uuid
  pub customer_id : Value
  pub amount : Decimal

module _ (f : Formats) where
  -- Before the session opens.
  unfoldable pub order_of_event : Value → Outcome (Value × Uuid)
  order_of_event event = do
    payload ← subscript event "payload"
    order_text ← subscript payload "order_id"
    order_id ← uuid_of_value f order_text
    ok (payload, order_id)

  unfoldable pub bind : Value → Value × Uuid → Outcome Bound
  bind event (payload, order_id) = do
    event_text ← subscript event "event_id"
    event_id ← uuid_of_value f event_text
    customer_id ← subscript payload "customer_id"
    amount_text ← subscript payload "amount"
    amount ← decimal_of_value f amount_text
    ok (record {
      order_id = order_id;
      event_id = event_id;
      customer_id = customer_id;
      amount = amount;
    })

-- The row that the columns make of the bound values.
unfoldable pub row_of : Database → Uuid → Timestamp → Bound → Outcome BillingRecord
row_of db id at b = do
  customer_id ← text_column db 64 b.customer_id
  amount ← numeric_column db b.amount
  ok (record {
    id = id;
    order_id = b.order_id;
    event_id = b.event_id;
    customer_id = customer_id;
    amount = amount;
    processed_at = at;
  })

abbrev pub insert_record :
    Outcome BillingRecord → List BillingRecord → Outcome Bool × List BillingRecord
insert_record = insert_checked (λ r. r.order_id) (λ r. r.id)

module _ (f : Formats) (db : Database) (host : Host) where
  -- The block of the session. An exception in the arguments of `.values` is raised before the server
  -- is asked.
  abbrev pub insert_bound : Outcome Bound → Query (List BillingRecord) (Unit {0}) Bool
  insert_bound (ok b) t w =
      statement db (insert_record (row_of db (host.uuid4 w.tick) (host.now w.tick) b)) t w
  insert_bound (raise e) t w = (raise e, t, w)
  insert_bound (exit code) t w = (exit code, t, w)

  abbrev pub bill_order :
      Value → Outcome (Value × Uuid) → Action (List BillingRecord) (Unit {0}) Bool
  bill_order event (ok order) w = session_scope db (insert_bound (bind f event order)) w
  bill_order event (raise e) w = (raise e, w)
  bill_order event (exit code) w = (exit code, w)

  -- `handle` up to its last log line: whether the row is fresh
  unfoldable pub bill : Value → Action (List BillingRecord) (Unit {0}) Bool
  unfolding session_scope
  bill event = bill_order event (order_of_event f event)

  abbrev pub logged : Outcome Bool → Outcome (Unit {0})
  logged (ok fresh) = ok tt
  logged (raise e) = raise e
  logged (exit code) = exit code

  -- handle: both outcomes are only logged
  unfoldable pub handle : Value → Action (List BillingRecord) (Unit {0}) (Unit {0})
  handle event w = let (o, w') = bill event w in (logged o, w')
