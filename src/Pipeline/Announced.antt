-- ===== src/Pipeline/Announced.antt =====
-- Orders on their way to SNS: order/routes.py and then relay/main.py on the same database.
use outbox_fanout.Prelude.{
  ℕ, ◌*◌, ◌≤◌, ◌<◌, true, false, ◌≡◌, refl, sym, subst, inl, inr, List, [], ◌∷◌, map, length, arith,
}
use outbox_fanout.Prelude.Predicates.{
  All, All-append, All-map, All-of_map, All-under_map, All-In, In, In-append_right,
}
use outbox_fanout.Prelude.Descending.{In-append_left}
use outbox_fanout.Db.{World, Database}
use outbox_fanout.Formats.{Formats, Uuid, Timestamp}
use outbox_fanout.Tables.{Order, OutboxEvent, Tables}
use outbox_fanout.Config.{Config}
use outbox_fanout.Host.{Host}
use outbox_fanout.Outcome.{Outcome}
use outbox_fanout.Order.Service.{OrderCreate, event_of, order_of}
use outbox_fanout.Order.Atomicity.{
  Posted, stored, refused, create_order-Posted, serve, serve-IsPaired, with_pair,
}
use outbox_fanout.Relay.Publisher.{Sns, Publisher, Message, body_of}
use outbox_fanout.Relay.Service.{is_pending}
use outbox_fanout.Relay.Main.{main}
use outbox_fanout.Relay.Safety.{bodies, Content, content, body_of-content, Delivered}
use outbox_fanout.Relay.Served.{IsServed}
use outbox_fanout.Relay.Delivered.{IsTaking, main-Delivered}

module _ (f : Formats) (c : Config) where
  -- SNS took the message of a row of that content.
  abbrev Taken : List Message → Content → Type 0
  Taken sent k = (e : OutboxEvent) × ((content e ≡ k) × Delivered f sent e)

  -- What SNS took of the rows, it took of rows of the same content.
  delivered_before :
      (sent : List Message) (rows rows' : List OutboxEvent)
      → map content rows' ≡ map content rows
      → All (Delivered f sent) rows'
      → All (Delivered f sent) rows
  delivered_before sent rows rows' same h =
      All-map _ rows (λ e k. subst (λ b. In b (bodies sent)) (body_of-content f k.0 e k.1.0) k.1.1)
        (All-under_map (Taken sent) content rows (
          subst (All (Taken sent)) same
            (All-of_map (Taken sent) content rows' (All-map _ rows' (λ e d. (e, (refl, d))) h))))

  -- The row of an order's event
  abbrev pub HasEvent : List OutboxEvent → Order → Type 0
  HasEvent rows o = (id : Uuid) × ((at : Timestamp) × In (event_of f c id at o) rows)

  -- No poll has seen the outbox, and each order has its event in it.
  record IsNew (t : Tables) : Type 0 where
    unsent : All (λ e. (e.published ≡ false) × (is_pending c.outbox_max_attempts e ≡ true)) t.outbox
    told : All (HasEvent t.outbox) t.orders

  module _ (some_attempts : 0 < c.outbox_max_attempts) where
    with_pair-IsNew :
        (o : Order) (id : Uuid) (at : Timestamp) (t : Tables)
        → IsNew t
        → IsNew (with_pair o (event_of f c id at o) t)
    with_pair-IsNew o id at t h = record {
      unsent = All-append _ t.outbox _ h.unsent ((refl, ground (arith, some_attempts)), tt);
      told =
          All-append _ t.orders _
            (All-map _ t.orders (λ o' k. (k.0, (k.1.0, In-append_left _ t.outbox _ k.1.1))) h.told)
            ((id, (at, In-append_right _ t.outbox _ (inl refl))), tt);
    }

    Posted-IsNew :
        {body : OrderCreate} {w w' : World Tables (Unit {0})} {r : Outcome Order}
        → Posted f c body w r w'
        → IsNew w.tables
        → IsNew w'.tables
    Posted-IsNew {body} {w} (stored id event_id at later _ t _ _ _) h =
        subst IsNew (sym t) (with_pair-IsNew (order_of id at body) event_id later w.tables h)
    Posted-IsNew (refused e _ t) h = subst IsNew (sym t) h

    serve-IsNew :
        (db : Database) (host : Host) (requests : List OrderCreate) (w : World Tables (Unit {0}))
        → IsNew w.tables
        → IsNew (serve f db host c requests w).tables
    unfolding serve
    serve-IsNew db host [] w h = h
    serve-IsNew db host (body ∷ rest) w h =
        serve-IsNew db host rest _ (Posted-IsNew (create_order-Posted f db host c body w) h)

    -- From an empty database: after any requests, whatever the database of the Order Service answers,
    -- a run of the relay with as many polls as the rows have attempts together, at least one each,
    -- where its database answers, no row is locked, no crash is injected, a batch has room, and SNS
    -- has the topic and acknowledges each message, ends with SNS having taken an OrderCreated event of
    -- each stored order, with that order's fields.
    pub serve-main :
        (db relay_db : Database) (host relay_host : Host) (sns : Sns) (requests : List OrderCreate)
        (polls : ℕ) (w₀ : World Tables (Unit {0})) (w : World Tables Publisher)
        → w₀.tables ≡ record { orders = []; outbox = [] }
        → w.tables ≡ (serve f db host c requests w₀).tables
        → IsServed relay_db c
        → IsTaking sns
        → c.outbox_max_attempts * length w.tables.outbox ≤ polls
        → All
            (λ o.
              (id : Uuid) × ((at : Timestamp) × In
                  (body_of f (event_of f c id at o))
                  (bodies (main f relay_db sns relay_host c polls w).1.process.sent)))
            (serve f db host c requests w₀).tables.orders
    serve-main db relay_db host relay_host sns requests polls w₀ w nothing same served taking
          enough =
        let new =
          serve-IsNew db host requests w₀ (rw nothing (record { unsent = tt; told = tt })) in
        let paired =
          serve-IsPaired f db host c requests w₀
            (rw nothing (record { events = refl; order_keys = tt; event_keys = tt; typed = tt })) in
        let done =
          main-Delivered f relay_db sns relay_host c served taking polls w
            (rw same (record {
              keys = paired.event_keys;
              delivered = All-map _ _ (λ e k. inl k.0) new.unsent;
            }))
            (rw same (All-map _ _ (λ e k. inr k.1) new.unsent)) enough in
        let sent = (main f relay_db sns relay_host c polls w).1.process.sent in
        let taken =
          subst (λ t. All (Delivered f sent) t.outbox) same
            (delivered_before sent w.tables.outbox _ done.1 (All-map _ _ (λ e k. k.1) done.0)) in
        All-map _ _ (λ o k. (k.0, (k.1.0, All-In (Delivered f sent) _ _ taken k.1.1))) new.told
