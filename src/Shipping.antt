-- ===== src/Shipping.antt =====
-- shipping/service.py over the table of shipping/models.py.
pub mod Laws
pub mod Deliveries
pub mod Main
use Prim.Native.String.{◌++◌ as append}
use outbox_fanout.Prelude.{ℕ, String, Bool, List}
use outbox_fanout.Outcome.{Outcome, ok, raise, exit}
use outbox_fanout.Db.{World, Database, Action, Query, statement, session_scope, ticked}
use outbox_fanout.Json.{Value, str, subscript}
use outbox_fanout.Formats.{Formats, Uuid, Timestamp}
use outbox_fanout.Host.{Host}
use outbox_fanout.Claims.{◌>>=◌, uuid_of_value, text_column, insert_checked}

-- class Shipment
pub record Shipment : Type 0 where
  pub id : Uuid
  pub order_id : Uuid
  pub event_id : Uuid
  pub customer_id : String
  pub item : String
  pub tracking_number : String
  pub processed_at : Timestamp

abbrev pub Shipping : Type 0
Shipping = World (List Shipment) (Unit {0})

-- The arguments of `.values(...)`, as Python evaluates them: the values that are bound.
pub record Bound : Type 0 where
  pub order_id : Uuid
  pub event_id : Uuid
  pub customer_id : Value
  pub item : Value
  pub tracking_number : String

-- What `handle` has read before the session opens.
pub record Parcel : Type 0 where
  pub payload : Value
  pub order_id : Uuid
  pub tracking : String

-- _tracking_number: `short` is `uuid.uuid4().hex[:12].upper()` of a UUID
unfoldable pub tracking_number : (Uuid → String) → Uuid → String
tracking_number short u = append "TRK-" (short u)

module _ (f : Formats) (short : Uuid → String) where
  -- Before the session opens, with the UUID of the tracking number.
  unfoldable pub parcel_of_event : Uuid → Value → Outcome Parcel
  unfolding tracking_number
  parcel_of_event minted event = do
    payload ← subscript event "payload"
    order_text ← subscript payload "order_id"
    order_id ← uuid_of_value f order_text
    ok (record { payload = payload; order_id = order_id; tracking = tracking_number short minted })

  unfoldable pub bind : Value → Parcel → Outcome Bound
  bind event parcel = do
    event_text ← subscript event "event_id"
    event_id ← uuid_of_value f event_text
    customer_id ← subscript parcel.payload "customer_id"
    item ← subscript parcel.payload "item"
    ok (record {
      order_id = parcel.order_id;
      event_id = event_id;
      customer_id = customer_id;
      item = item;
      tracking_number = parcel.tracking;
    })

-- The row that the columns make of the bound values.
unfoldable pub row_of : Database → Uuid → Timestamp → Bound → Outcome Shipment
row_of db id at b = do
  customer_id ← text_column db 64 b.customer_id
  item ← text_column db 255 b.item
  tracking ← text_column db 32 (str b.tracking_number)
  ok (record {
    id = id;
    order_id = b.order_id;
    event_id = b.event_id;
    customer_id = customer_id;
    item = item;
    tracking_number = tracking;
    processed_at = at;
  })

abbrev pub insert_shipment : Outcome Shipment → List Shipment → Outcome Bool × List Shipment
insert_shipment = insert_checked (λ r. r.order_id) (λ r. r.id)

module _ (f : Formats) (db : Database) (host : Host) (short : Uuid → String) where
  -- The block of the session.
  abbrev pub insert_bound : Outcome Bound → Query (List Shipment) (Unit {0}) Bool
  insert_bound (ok b) t w =
      statement db (insert_shipment (row_of db (host.uuid4 w.tick) (host.now w.tick) b)) t w
  insert_bound (raise e) t w = (raise e, t, w)
  insert_bound (exit code) t w = (exit code, t, w)

  abbrev pub ship_order : Value → Outcome Parcel → Action (List Shipment) (Unit {0}) Bool
  ship_order event (ok parcel) w = session_scope db (insert_bound (bind f short event parcel)) w
  ship_order event (raise e) w = (raise e, w)
  ship_order event (exit code) w = (exit code, w)

  -- `handle` up to its last log line: whether the row is fresh
  unfoldable pub ship : Value → Action (List Shipment) (Unit {0}) Bool
  unfolding session_scope
  ship event w = ship_order event (parcel_of_event f short (host.uuid4 w.tick) event) (ticked w)

  -- `order_id`, `item` and `event_id` are read again for the log, after the session: they were all
  -- read before
  abbrev pub logged : Outcome Bool → Outcome (Unit {0})
  logged (ok fresh) = ok tt
  logged (raise e) = raise e
  logged (exit code) = exit code

  -- handle
  unfoldable pub handle : Value → Action (List Shipment) (Unit {0}) (Unit {0})
  handle event w = let (o, w') = ship event w in (logged o, w')
