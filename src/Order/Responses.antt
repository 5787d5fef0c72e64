-- ===== src/Order/Responses.antt =====
-- What a client of the Order Service sees.
use outbox_fanout.Prelude.{ℕ, true, false, ◌≡◌, refl, none, List, [], ◌∷◌, ◌++◌, arith, suc, ==_iff}
use outbox_fanout.Outcome.{integrity_error, http_exception, ok, raise}
use outbox_fanout.Db.{World, Database}
use outbox_fanout.Formats.{Formats, Uuid}
use outbox_fanout.Tables.{
  Order, OutboxEvent, Tables, has_order, has_event, takes_order, insert_order, insert_event,
}
use outbox_fanout.Config.{Config}
use outbox_fanout.Host.{Host}
use outbox_fanout.Order.Service
use outbox_fanout.Order.Service.{OrderCreate, order_of, event_of}
use outbox_fanout.Order.Routes.{create_order}
use outbox_fanout.Order.Atomicity.{with_pair}

any-snoc :
    (id : Uuid) (o : Order) (os : List Order) → o.id ≡ id → has_order id (os ++ o ∷ []) ≡ true
any-snoc id o [] h = rw ((==_iff o.id id).1 h) refl
any-snoc id o (x ∷ os) h = ground (arith, any-snoc id o os h)

-- The database answers, and `uuid4` has not minted a stored key.
pub record IsServed (db : Database) (host : Host) (w : World Tables (Unit {0})) : Type 0 where
  pub answers : (n : ℕ) → db.fault n ≡ none
  pub fresh_order : has_order (host.uuid4 w.tick) w.tables.orders ≡ false
  pub fresh_event : has_event (host.uuid4 (suc w.tick)) w.tables.outbox ≡ false

module _ (f : Formats) (db : Database) (host : Host) (c : Config) (body : OrderCreate)
    (w : World Tables (Unit {0})) where
  abbrev order : Order
  order = order_of (host.uuid4 w.tick) (host.now w.tick) body

  abbrev event : OutboxEvent
  event = event_of f c (host.uuid4 (suc w.tick)) (host.now (suc w.tick)) order

  abbrev with_order : Tables
  with_order = record w.tables { orders = w.tables.orders ++ order ∷ [] }

  module _ (served : IsServed db host w) (accepted : takes_order order ≡ true) where
    order_inserts : insert_order order w.tables ≡ (ok tt, with_order)
    unfolding insert_order
    order_inserts = ground (arith, served.fresh_order, accepted)

    event_inserts :
        c.break_outbox_insert ≡ false
        → insert_event event with_order ≡ (ok tt, with_pair order event w.tables)
    unfolding insert_event
    event_inserts whole =
        ground (arith, whole, served.fresh_event, any-snoc order.id order w.tables.orders refl)

    event_breaks :
        c.break_outbox_insert ≡ true
        → insert_event event with_order ≡ (raise integrity_error, with_order)
    unfolding insert_event
    event_breaks broken = ground (arith, broken, served.fresh_event)

    -- An order that the columns take is stored with its event, and the stored order is the response, where the
    -- database answers, the minted ids are fresh and the fault injection is off.
    pub create_order-created :
        c.break_outbox_insert ≡ false
        → ((create_order f db host c body w).0 ≡ ok order)
          × ((create_order f db host c body w).1.tables ≡ with_pair order event w.tables)
    unfolding create_order Service.create_order
    create_order-created whole = ground (
      arith,
      served.answers w.tick,
      served.answers (suc w.tick),
      served.answers (suc (suc w.tick)),
      order_inserts,
      event_inserts whole,
    )

    -- With the fault injection on, the same request is answered with 422, and the order that was
    -- already inserted is gone.
    pub create_order-broken :
        c.break_outbox_insert ≡ true
        → ((create_order f db host c body w).0 ≡ raise (http_exception 422))
          × ((create_order f db host c body w).1.tables ≡ w.tables)
    unfolding create_order Service.create_order
    create_order-broken broken = ground (
      arith,
      served.answers w.tick,
      served.answers (suc w.tick),
      order_inserts,
      event_breaks broken,
    )

  -- Where the database answers, an order that the columns do not take is answered with 503, and nothing
  -- is stored.
  pub create_order-refused :
      IsServed db host w
      → takes_order order ≡ false
      → ((create_order f db host c body w).0 ≡ raise (http_exception 503))
        × ((create_order f db host c body w).1.tables ≡ w.tables)
  unfolding create_order Service.create_order insert_order
  create_order-refused served untaken = ground (arith, served.answers w.tick, untaken)
