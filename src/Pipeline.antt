-- ===== src/Pipeline.antt =====
-- The way of an order's event through the services: from its row in the outbox, over the relay
-- (relay/service.py), SNS's envelope and the consumer loop (shared/consumer.py), into Billing's table
-- (billing/service.py).
pub mod Fanout
pub mod Announced
use outbox_fanout.Prelude.{
  ℕ, String, true, false, ◌≡◌, ◌≤◌, refl, sym, ap, ◌∙◌, subst, some, List, [], ◌∷◌, ◌++◌, chars,
  Option-cases, inl, inr, arith,
}
use outbox_fanout.Prelude.Predicates.{In}
use outbox_fanout.Prelude.Distinct.{Distinct}
use outbox_fanout.Outcome.{Outcome, ok, raise, exit}
use outbox_fanout.Db.{World, Database, ticked}
use outbox_fanout.Json.{Value, Fields, obj, subscript}
use outbox_fanout.Formats.{Formats}
use outbox_fanout.Tables.{Order, OutboxEvent, Tables}
use outbox_fanout.Config.{Config}
use outbox_fanout.Host.{Host}
use outbox_fanout.Order.Service.{event_of}
use outbox_fanout.Relay.Publisher.{Sns, Publisher, Message, build_message, body_of, publish}
use outbox_fanout.Relay.Service.{relay_one}
use outbox_fanout.Relay.Safety.{ids}
use outbox_fanout.Relay.Success.{relay_one-publish}
use outbox_fanout.Relay.Served
use outbox_fanout.Messages.Laws.{IsEnvelope, unwrap-body_of}
use outbox_fanout.Consumer.{
  SqsMessage, Sqs, Loop, Handler, parse_event, delete, after_handler, handle_one,
}
use outbox_fanout.Billing.{Billing, handle}
use outbox_fanout.Billing.Laws.{is_billed}
use outbox_fanout.Billing.Deliveries.{
  IsServed, order_event, event_order, billed_row, handle-order, handle-billed, handle-again,
}

-- A consumer's message from SNS: the envelope around the published body.
abbrev pub delivery : Formats → Fields → String → SqsMessage
delivery f envelope receipt = record {
  body = some (f.dumps (obj envelope));
  receipt_handle = receipt;
}

pub delivery-parse :
    (f : Formats) (event : OutboxEvent) (envelope : Fields) (receipt : String)
    → IsEnvelope f (body_of f event) envelope
    → parse_event f (delivery f envelope receipt) ≡ ok (obj (build_message f event))
unfolding parse_event build_message subscript
delivery-parse f event envelope receipt e = rw ((unwrap-body_of f event envelope e).0) refl

module _ {W : Type 0} (f : Formats) (sqs : Sqs) (handler : Handler W) (m : SqsMessage) where
  -- The deletion is no matter of the handler's state.
  after_handler-world :
      (o : Outcome (Unit {0})) (k : Loop W) → (after_handler f sqs handler m o k).1.world ≡ k.world
  unfolding delete
  after_handler-world (ok _) k = elim (Option-cases (sqs.delete_fault k.tick)) [
    | inl calm ↦ ground arith
    | inr (e, fault) ↦ ground arith
  ]
  after_handler-world (raise e) k = refl
  after_handler-world (exit code) k = refl

  -- What `_handle_one` does of a message that parses, the handler does.
  pub handle_one-world :
      (l : Loop W) (event : Value)
      → parse_event f m ≡ ok event
      → (handle_one f sqs handler m l).1.world ≡ (handler event l.world).1
  unfolding handle_one
  handle_one-world l event p = rw p (
      after_handler-world (handler event l.world).0
        (record l { world = (handler event l.world).1 }))

module _ (f : Formats) (c : Config) (event_id at : ℕ) (order : Order) (db : Database) (host : Host)
    (sqs : Sqs) where
  abbrev pub row : OutboxEvent
  row = event_of f c event_id at order

  -- Billing's consumer on a message.
  abbrev pub consume : SqsMessage → Loop Billing → Loop Billing
  consume m l = (handle_one f sqs (handle f db host) m l).1

  module _ (envelope : Fields) (receipt : String)
      (wrapped : IsEnvelope f (body_of f row) envelope) where
    abbrev event : Value
    event = order_event f db host c event_id at order

    consume-world :
        (l : Loop Billing)
        → (consume (delivery f envelope receipt) l).world ≡ (handle f db host event l.world).1
    consume-world l =
        handle_one-world f sqs (handle f db host) (delivery f envelope receipt) l event
          (delivery-parse f row envelope receipt wrapped)

    -- A delivery of the event of an order that has a record adds none.
    consume-again :
        (l : Loop Billing)
        → is_billed order.id l.world.tables ≡ true
        → (consume (delivery f envelope receipt) l).world.tables ≡ l.world.tables
    consume-again l there =
        ap (λ w. w.tables) (consume-world l)
        ∙ handle-again f db host event _ order.id l.world
            (event_order f db host c event_id at order) there

    module _ (l : Loop Billing) (served : IsServed f db host l.world)
        (free : is_billed order.id l.world.tables ≡ false) (fits : chars order.customer_id ≤ 64)
        (numeric : db.numeric order.amount ≡ some order.amount) where
      -- The first delivery makes the record, and any later one adds none.
      consume_twice :
          (l' : Loop Billing)
          → l'.world.tables ≡ (consume (delivery f envelope receipt) l).world.tables
          → ((consume (delivery f envelope receipt) l).world.tables
              ≡ l.world.tables ++ (billed_row f db host c event_id at order l.world ∷ []))
            × ((consume (delivery f envelope receipt) l').world.tables
                ≡ (consume (delivery f envelope receipt) l).world.tables)
      consume_twice l' later =
          let (returned, made) =
            handle-order f db host c event_id at order l.world served free fits numeric in
          let there =
            handle-billed f db host event _ order.id l.world
              (event_order f db host c event_id at order) returned in
          let billed = ap (λ w. is_billed order.id w.tables) (consume-world l) ∙ there in
          (
            ap (λ w. w.tables) (consume-world l) ∙ made,
            consume-again l' (ap (is_billed order.id) later ∙ billed) ∙ later,
          )

  -- The envelope around the message that relay_one has sent for the row is one around the row's body.
  pub relay_one-IsEnvelope :
      (sns : Sns) (relay_db : Database) (relay_host : Host) (w : World Tables Publisher)
      (m : String) (message : Message) (envelope : Fields)
      → Served.IsServed relay_db c
      → Distinct (ids w.tables.outbox)
      → In row w.tables.outbox
      → (publish f sns c row w.tables (ticked w)).0 ≡ ok m
      → (relay_one f relay_db sns relay_host c event_id w).1.process.sent ≡ message ∷ w.process.sent
      → IsEnvelope f message.body envelope
      → IsEnvelope f (body_of f row) envelope
  relay_one-IsEnvelope sns relay_db relay_host w m message envelope relaying keys stored taken sent
        wrapped =
      let (_, _, published) =
        relay_one-publish f relay_db sns relay_host c w row m relaying keys stored refl taken in
      subst (λ body. IsEnvelope f body envelope) (same_body _ _ _ _ (sym sent ∙ published)) wrapped
    where
      same_body : (a b : Message) (xs ys : List Message) → (a ∷ xs) ≡ (b ∷ ys) → a.body ≡ b.body
      same_body a b xs ys h = ground arith

  -- From the outbox to one bill: where the relay's database answers, no row is locked, no crash is
  -- injected, a batch has room, the keys of the outbox are distinct, the row of an order's event
  -- stands in it and publish returns for it, the message that relay_one has sent, in the envelope
  -- that SNS puts around it, makes Billing add one record with the order's key, customer and
  -- amount, where the order has none, the database answers, the minted key is fresh and the order
  -- fits the columns; and a redelivery, at any later state with the same records, adds none.
  pub relay_one-consume :
      (sns : Sns) (relay_db : Database) (relay_host : Host) (w : World Tables Publisher)
      (m : String) (message : Message) (envelope : Fields) (receipt : String) (l l' : Loop Billing)
      → Served.IsServed relay_db c
      → Distinct (ids w.tables.outbox)
      → In row w.tables.outbox
      → (publish f sns c row w.tables (ticked w)).0 ≡ ok m
      → (relay_one f relay_db sns relay_host c event_id w).1.process.sent ≡ message ∷ w.process.sent
      → IsEnvelope f message.body envelope
      → IsServed f db host l.world
      → is_billed order.id l.world.tables ≡ false
      → chars order.customer_id ≤ 64
      → db.numeric order.amount ≡ some order.amount
      → l'.world.tables ≡ (consume (delivery f envelope receipt) l).world.tables
      → ((consume (delivery f envelope receipt) l).world.tables
          ≡ l.world.tables ++ (billed_row f db host c event_id at order l.world ∷ []))
        × ((consume (delivery f envelope receipt) l').world.tables
            ≡ (consume (delivery f envelope receipt) l).world.tables)
  relay_one-consume sns relay_db relay_host w m message envelope receipt l l' relaying keys stored
        taken sent wrapped served free fits numeric later =
      consume_twice envelope receipt
        (relay_one-IsEnvelope sns relay_db relay_host w m message envelope relaying keys stored
          taken sent wrapped)
        l served free fits numeric l' later
