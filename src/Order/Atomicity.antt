-- ===== src/Order/Atomicity.antt =====
-- POST /orders writes the order and its event together, or nothing.
use outbox_fanout.Prelude.{
  false, ◌≡◌, refl, sym, inl, inr, none, some, List, [], ◌∷◌, ◌++◌, map, arith, Option-cases, suc,
  is_none, subst, map-append,
}
use outbox_fanout.Prelude.Predicates.{All, All-append}
use outbox_fanout.Prelude.Distinct.{Distinct, Distinct-snoc, absent}
use outbox_fanout.Outcome.{Exc, Outcome, ok, raise}
use outbox_fanout.Db.{World, Database}
use outbox_fanout.Formats.{Formats, Uuid, Timestamp}
use outbox_fanout.Tables.{Order, OutboxEvent, Tables, has_order, has_event, insert_order}
use outbox_fanout.Config.{Config}
use outbox_fanout.Host.{Host}
use outbox_fanout.Tables.Inserts.{insert_order-cases, insert_event-cases}
use outbox_fanout.Order.Service
use outbox_fanout.Order.Service.{OrderCreate, order_of, event_of}
use outbox_fanout.Order.Routes.{create_order, on_database_error}

abbrev pub with_pair : Order → OutboxEvent → Tables → Tables
with_pair order event t = record {
  orders = t.orders ++ order ∷ [];
  outbox = t.outbox ++ event ∷ [];
}

-- `stored`: the response is the order, and the order and its event are the only rows added, under
-- fresh keys. `refused`: an exception, and the tables are as before.
pub data Posted (f : Formats) (c : Config) (body : OrderCreate) (w : World Tables (Unit {0}))
    (o : Outcome Order) (w' : World Tables (Unit {0})) : Type 0 where
  stored :
      (id event_id : Uuid) (at later : Timestamp)
      → o ≡ ok (order_of id at body)
      → w'.tables
        ≡ with_pair
            (order_of id at body)
            (event_of f c event_id later (order_of id at body))
            w.tables
      → c.break_outbox_insert ≡ false
      → has_order id w.tables.orders ≡ false
      → has_event event_id w.tables.outbox ≡ false
      → Posted f c body w o w'
  refused : (e : Exc) → o ≡ raise e → w'.tables ≡ w.tables → Posted f c body w o w'

module _ (f : Formats) (db : Database) (host : Host) (c : Config) (body : OrderCreate)
    (w : World Tables (Unit {0})) where
  abbrev posted : Outcome Order × World Tables (Unit {0})
  posted = create_order f db host c body w

  abbrev order : Order
  order = order_of (host.uuid4 w.tick) (host.now w.tick) body

  abbrev event : OutboxEvent
  event = event_of f c (host.uuid4 (suc w.tick)) (host.now (suc w.tick)) order

  abbrev with_order : Tables
  with_order = record w.tables { orders = w.tables.orders ++ order ∷ [] }

  -- An event without its event_type is refused, so none is stored under the fault injection.
  not_broken : is_none event.event_type ≡ false → c.break_outbox_insert ≡ false
  not_broken h = ground arith

  module _ (calm : db.fault w.tick ≡ none)
      (inserted : insert_order order w.tables ≡ (ok tt, with_order))
      (fresh : has_order order.id w.tables.orders ≡ false) where
    second_insert : Posted f c body w posted.0 posted.1
    unfolding create_order Service.create_order
    second_insert = elim (Option-cases (db.fault (suc w.tick))) [
      | inr (e, p) ↦ refused (on_database_error e) (ground arith) (ground arith)
      | inl calm' ↦ elim (insert_event-cases event with_order) [
        | inr (e, p) ↦ refused (on_database_error e) (ground arith) (ground arith)
        | inl (p, new, typed) ↦ elim (Option-cases (db.fault (suc (suc w.tick)))) [
          | inr (e, q) ↦ refused (on_database_error e) (ground arith) (ground arith)
          | inl committed ↦
              stored order.id event.id order.created_at event.created_at (ground arith)
                (ground arith) (not_broken typed) fresh new
        ]
      ]
    ]

  -- Every branch of POST /orders, whatever the database answers: the order and its event are both
  -- stored and the order is returned, or an exception is raised and neither is stored.
  pub create_order-Posted : Posted f c body w posted.0 posted.1
  unfolding create_order Service.create_order
  create_order-Posted = elim (Option-cases (db.fault w.tick)) [
    | inr (e, p) ↦ refused (on_database_error e) (ground arith) (ground arith)
    | inl calm ↦ elim (insert_order-cases order w.tables) [
      | inr (e, p) ↦ refused (on_database_error e) (ground arith) (ground arith)
      | inl (p, fresh) ↦ second_insert calm p fresh
    ]
  ]

-- Any number of requests, one after the other, as the tables see them.
unfoldable pub serve :
    (f : Formats) (db : Database) (host : Host) (c : Config)
    → List OrderCreate
    → World Tables (Unit {0})
    → World Tables (Unit {0})
serve f db host c [] w = w
serve f db host c (body ∷ rest) w = serve f db host c rest (create_order f db host c body w).1

-- The events stand beside the orders that they tell of, one for each, in the same order; keys are
-- unique on both sides; and every event is an OrderCreated.
pub record IsPaired (t : Tables) : Type 0 where
  pub events : map (λ e. e.order_id) t.outbox ≡ map (λ o. o.id) t.orders
  pub order_keys : Distinct (map (λ o. o.id) t.orders)
  pub event_keys : Distinct (map (λ e. e.id) t.outbox)
  pub typed : All (λ e. e.event_type ≡ some Service.event_type_order_created) t.outbox

with_pair-IsPaired :
    (f : Formats) (c : Config) (t : Tables) (body : OrderCreate) (id event_id : Uuid)
    (at later : Timestamp)
    → c.break_outbox_insert ≡ false
    → has_order id t.orders ≡ false
    → has_event event_id t.outbox ≡ false
    → IsPaired t
    → IsPaired
        (with_pair (order_of id at body) (event_of f c event_id later (order_of id at body)) t)
with_pair-IsPaired f c t body id event_id at later whole fresh new h = record {
  events = rw (map-append, map-append, h.events) refl;
  order_keys =
      rw map-append (Distinct-snoc id _ h.order_keys (absent (λ o. o.id) id t.orders fresh));
  event_keys =
      rw map-append
        (Distinct-snoc event_id _ h.event_keys (absent (λ e. e.id) event_id t.outbox new));
  typed = All-append _ t.outbox _ h.typed (rw whole refl, tt);
}

pub Posted-IsPaired :
    {f : Formats} {c : Config} {body : OrderCreate} {w w' : World Tables (Unit {0})}
    {o : Outcome Order}
    → Posted f c body w o w'
    → IsPaired w.tables
    → IsPaired w'.tables
Posted-IsPaired {f} {c} {body} {w} (stored id event_id at later _ t whole fresh new) h =
    subst IsPaired (sym t)
      (with_pair-IsPaired f c w.tables body id event_id at later whole fresh new h)
Posted-IsPaired (refused e _ t) h = subst IsPaired (sym t) h

-- No sequence of requests, whatever the database answers to any of them, leaves an order without its
-- event, an event without its order, a key that two orders or two events have, or an event that is no
-- OrderCreated, if that was so at the start.
pub serve-IsPaired :
    (f : Formats) (db : Database) (host : Host) (c : Config) (bodies : List OrderCreate)
    (w : World Tables (Unit {0}))
    → IsPaired w.tables
    → IsPaired (serve f db host c bodies w).tables
unfolding serve
serve-IsPaired f db host c [] w h = h
serve-IsPaired f db host c (body ∷ rest) w h =
    serve-IsPaired f db host c rest _ (Posted-IsPaired (create_order-Posted f db host c body w) h)
