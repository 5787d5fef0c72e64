-- ===== src/Order/Service.antt =====
-- order/service.py: the order and its outbox event, staged as one unit, and the request body of
-- order/schemas.py.
use outbox_fanout.Prelude.{String, false, none, some, if◌then◌else◌}
use outbox_fanout.Db.{Database, Query, pure, statement, ◌>>◌}
use outbox_fanout.Json.{Fields, entry, empty_object, str}
use outbox_fanout.Formats.{Formats, Uuid, Timestamp, Decimal}
use outbox_fanout.Tables.{Order, OutboxEvent, Tables, insert_order, insert_event}
use outbox_fanout.Config.{Config}
use outbox_fanout.Host.{Host}

-- class OrderCreate, after validation
pub record OrderCreate : Type 0 where
  pub customer_id : String
  pub item : String
  pub amount : Decimal

-- The Order Service keeps no state of its own between requests.
abbrev pub OrderQuery : Type 0 → Type 0
OrderQuery A = Query Tables (Unit {0}) A

abbrev pub event_type_order_created : String
event_type_order_created = "OrderCreated"

module _ (f : Formats) where
  -- _build_payload
  unfoldable pub build_payload : Order → Fields
  build_payload order = entry "order_id" (str (f.uuid_text order.id)) (
      entry "customer_id" (str order.customer_id) (
        entry "item" (str order.item) (
          entry "amount" (str (f.decimal_text order.amount))
            (entry "created_at" (str (f.isoformat order.created_at)) empty_object))))

abbrev pub order_of : Uuid → Timestamp → OrderCreate → Order
order_of id at body = record {
  id = id;
  customer_id = body.customer_id;
  item = body.item;
  amount = body.amount;
  created_at = at;
}

module _ (f : Formats) (c : Config) where
  -- The outbox object as it stands at the flush, with the defaults of its `id` and `created_at`. The
  -- fault injection takes its event_type away.
  abbrev pub event_of : Uuid → Timestamp → Order → OutboxEvent
  event_of id at order = record {
    id = id;
    order_id = order.id;
    event_type = if c.break_outbox_insert then none else some event_type_order_created;
    payload = build_payload f order;
    published = false;
    created_at = at;
    published_at = none;
    attempts = 0;
    last_error = none;
    failed_at = none;
  }

module _ (f : Formats) (db : Database) (host : Host) (c : Config) where
  -- `session.flush()`: the INSERT of the order, then that of the event
  unfoldable pub flush : Order → OrderQuery Unit
  flush order = do
    statement db (insert_order order)
    (λ t w.
        statement db (insert_event (event_of f c (host.uuid4 w.tick) (host.now w.tick) order)) t w)

  -- create_order of order/service.py
  unfoldable pub create_order : OrderCreate → OrderQuery Order
  unfolding flush
  create_order body t w =
      let order = order_of (host.uuid4 w.tick) (host.now w.tick) body in
      (do flush order; pure order) t w
