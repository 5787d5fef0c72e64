-- ===== src/Pipeline/Fanout.antt =====
-- From a request to the three consumers: order/routes.py, relay/service.py, shared/consumer.py, and the
-- handlers of billing/service.py, shipping/service.py and notifications/service.py.
use outbox_fanout.Prelude.{
  ◌≢◌, ℕ, String, true, false, ◌≡◌, ◌≤◌, refl, sym, ap, ◌∙◌, subst, some, [], ◌∷◌, ◌++◌, chars, inl,
  inr, arith,
}
use outbox_fanout.Prelude.Predicates.{In, In-append_right, All-In, All-under_map}
use outbox_fanout.Prelude.Distinct.{Distinct, absent}
use outbox_fanout.Relay.Effects.{Claims, relay_one-sends}
use outbox_fanout.Outcome.{ok}
use outbox_fanout.Db.{World, Database, ticked}
use outbox_fanout.Json.{Value, Fields, obj, str, get, subscript}
use outbox_fanout.Formats.{Formats, Uuid}
use outbox_fanout.Tables.{Order, OutboxEvent, Tables}
use outbox_fanout.Config.{Config}
use outbox_fanout.Host.{Host}
use outbox_fanout.Order.Service.{OrderCreate, event_of, build_payload}
use outbox_fanout.Order.Validation.{Pydantic, IsDocumented, validate, post_order}
use outbox_fanout.Order.Atomicity.{IsPaired, Posted-IsPaired, create_order-Posted}
use outbox_fanout.Order.Responses
use outbox_fanout.Order.Accepted.{
  order_from, event_from, post_order-answers, post_order-valid, validate-IsStorable,
}
use outbox_fanout.Relay.Publisher.{
  Sns, Publisher, Message, build_message, body_of, publish, accepted,
}
use outbox_fanout.Relay.Service.{relay_one}
use outbox_fanout.Relay.Safety.{ids}
use outbox_fanout.Relay.Served
use outbox_fanout.Messages.Laws.{IsEnvelope}
use outbox_fanout.Consumer.{Sqs, Loop, handle_one}
use outbox_fanout.Billing
use outbox_fanout.Billing.Laws.{is_billed}
use outbox_fanout.Billing.Deliveries.{billed_row, handle-order}
use outbox_fanout.Billing.Deliveries as Bills
use outbox_fanout.Shipping
use outbox_fanout.Shipping.Laws.{is_shipped}
use outbox_fanout.Shipping.Deliveries.{shipped_row, handle-parcel}
use outbox_fanout.Shipping.Deliveries as Parcels
use outbox_fanout.Notifications
use outbox_fanout.Notifications.{Redis, Notifier, Notice, notice_of_event, email_args}
use outbox_fanout.Notifications.Laws.{claim_reply, handle-emails}
use outbox_fanout.Pipeline.{delivery, delivery-parse, handle_one-world, relay_one-IsEnvelope}

module _ (f : Formats) (c : Config) (event_id at : ℕ) (order : Order) where
  -- What Notifications reads of the event of an order.
  abbrev pub notice : Notice
  notice = record {
    payload = obj (build_payload f order);
    order_id = f.uuid_text order.id;
    event_id = str (f.uuid_text event_id);
  }

  event_notice :
      notice_of_event f (obj (build_message f (event_of f c event_id at order))) ≡ ok notice
  unfolding notice_of_event build_message build_payload get subscript
  event_notice = rw (f.str_of-str (f.uuid_text order.id)) refl

  notice_full : email_args notice.payload ≡ ok tt
  unfolding email_args build_payload get subscript
  notice_full = refl

  -- Billing's process can take the order: its database answers, the minted key is fresh, the order has
  -- no record, and the column stores its amount as it is.
  pub record CanBill (db : Database) (host : Host) (l : Loop Billing.Billing) : Type 0 where
    pub served : Bills.IsServed f db host l.world
    pub free : is_billed order.id l.world.tables ≡ false
    pub amount : db.numeric order.amount ≡ some order.amount

  -- Likewise Shipping, whose tracking number fits its column.
  pub record CanShip (db : Database) (host : Host) (short : Uuid → String)
      (l : Loop Shipping.Shipping) : Type 0 where
    pub served : Parcels.IsServed f db host short l.world
    pub free : is_shipped order.id l.world.tables ≡ false
    pub tracking : chars (Shipping.tracking_number short (host.uuid4 l.world.tick)) ≤ 32

  -- Redis grants Notifications the claim, and no crash is injected.
  pub record CanEmail {S : Type 0} (redis : Redis S) (l : Loop (Notifier S)) : Type 0 where
    pub granted : claim_reply redis c notice l.world ≡ accepted true
    pub steady : c.crash_after_mark ≡ false

  module _ (sqs : Sqs) (envelope : Fields) (receipt : String)
      (wrapped : IsEnvelope f (body_of f (event_of f c event_id at order)) envelope) where
    delivered :
        {W : Type 0} (handler : _) (l : Loop W)
        → (handle_one f sqs handler (delivery f envelope receipt) l).1.world
          ≡ (handler (obj (build_message f (event_of f c event_id at order))) l.world).1
    delivered handler l =
        handle_one-world f sqs handler (delivery f envelope receipt) l _
          (delivery-parse f (event_of f c event_id at order) envelope receipt wrapped)

    bills :
        (db : Database) (host : Host) (l : Loop Billing.Billing)
        → CanBill db host l
        → chars order.customer_id ≤ 64
        → (handle_one f sqs
            (Billing.handle f db host)
            (delivery f envelope receipt)
            l).1.world.tables
          ≡ l.world.tables ++ (billed_row f db host c event_id at order l.world ∷ [])
    bills db host l can fits =
        ap (λ w. w.tables) (delivered (Billing.handle f db host) l)
        ∙ (handle-order f db host c event_id at order l.world can.served can.free fits can.amount).1

    ships :
        (db : Database) (host : Host) (short : Uuid → String) (l : Loop Shipping.Shipping)
        → CanShip db host short l
        → chars order.customer_id ≤ 64
        → chars order.item ≤ 255
        → (handle_one f sqs
            (Shipping.handle f db host short)
            (delivery f envelope receipt)
            l).1.world.tables
          ≡ l.world.tables ++ (shipped_row f db host short c event_id at order l.world ∷ [])
    ships db host short l can fits item_fits =
        ap (λ w. w.tables) (delivered (Shipping.handle f db host short) l)
        ∙ (handle-parcel f db host short c event_id at order l.world can.served can.free fits
            item_fits can.tracking).1

    emails :
        {S : Type 0} (redis : Redis S) (l : Loop (Notifier S))
        → CanEmail redis l
        → (handle_one f sqs
            (Notifications.handle f redis c)
            (delivery f envelope receipt)
            l).1.world.sent
          ≡ f.uuid_text order.id ∷ l.world.sent
    emails redis l can =
        ap (λ w. w.sent) (delivered (Notifications.handle f redis c) l)
        ∙ (handle-emails f redis c _ l.world notice event_notice can.granted notice_full
            can.steady).1

module _ (f : Formats) (c : Config) (p : Pydantic) (documented : IsDocumented p) (v : Value)
    (body : OrderCreate) (valid : validate p v ≡ some body) (db : Database) (host : Host)
    (w₀ : World Tables (Unit {0})) (served : Responses.IsServed db host w₀)
    (whole : c.break_outbox_insert ≡ false) (paired : IsPaired w₀.tables) where
  abbrev order : Order
  order = order_from host w₀ body

  abbrev row : OutboxEvent
  row = event_from f host c w₀ body

  abbrev posted : Tables
  posted = (post_order f db host c p v w₀).1.tables

  posted-IsPaired : IsPaired posted
  posted-IsPaired =
      subst (λ w. IsPaired w.tables) (sym (post_order-valid f db host c p v body w₀ valid))
        (Posted-IsPaired (create_order-Posted f db host c body w₀) paired)

  -- No row had the key of the event before the request.
  unstored : (event : OutboxEvent) → In event w₀.tables.outbox → event.id ≢ row.id
  unstored event stored =
      All-In (λ e. e.id ≢ row.id) w₀.tables.outbox event
        (All-under_map (λ y. y ≢ row.id) (λ e. e.id) w₀.tables.outbox
          (absent (λ e. e.id) row.id w₀.tables.outbox served.fresh_event))
        stored

  -- Where a row was sent under the key of the event, the request was stored.
  posted-row : (event : OutboxEvent) → Claims row.id event posted → In row posted.outbox
  posted-row event claims = elim (post_order-answers p documented f db host c v w₀ served whole) [
    | inl (invalid, _) ↦ absurd (ground (arith, valid, invalid))
    | inr (inr (_, _, _, _, t)) ↦
        absurd (unstored event (subst (λ ts. In event ts.outbox) t claims.row) claims.same_id)
    | inr (inl (body', valid', _, _, t)) ↦
        subst (λ ts. In row ts.outbox) (sym t)
          (subst (λ b. In row (w₀.tables.outbox ++ (event_from f host c w₀ b ∷ [])))
            (ground (arith, valid, valid'))
            (In-append_right row w₀.tables.outbox (row ∷ []) (inl refl)))
  ]

  -- From a request to the bill, the shipment and the email: a body that pydantic accepts is posted,
  -- where the database answers, the minted ids are fresh, no fault is injected and the tables are
  -- paired; later the relay comes to its row in the same tables, in surroundings that let it work, and
  -- publish returns. Then the message that SNS took, in the envelope that SNS puts around it, makes
  -- Billing add the record of the order, Shipping its shipment, and Notifications send its email, where
  -- each of the three can take the order.
  pub fan_out :
      (sns : Sns) (relay_db : Database) (relay_host : Host) (w : World Tables Publisher)
      (m : String) (message : Message) (envelope : Fields) (sqs : Sqs)
      (r_bill r_ship r_notify : String) (bill_db ship_db : Database) (bill_host ship_host : Host)
      (short : Uuid → String) {S : Type 0} (redis : Redis S) (l_bill : Loop Billing.Billing)
      (l_ship : Loop Shipping.Shipping) (l_notify : Loop (Notifier S))
      → w.tables ≡ posted
      → Served.IsServed relay_db c
      → (publish f sns c row w.tables (ticked w)).0 ≡ ok m
      → (relay_one f relay_db sns relay_host c row.id w).1.process.sent ≡ message ∷ w.process.sent
      → IsEnvelope f message.body envelope
      → CanBill f c row.id row.created_at order bill_db bill_host l_bill
      → CanShip f c row.id row.created_at order ship_db ship_host short l_ship
      → CanEmail f c row.id row.created_at order redis l_notify
      → ((handle_one f sqs
            (Billing.handle f bill_db bill_host)
            (delivery f envelope r_bill)
            l_bill).1.world.tables
          ≡ l_bill.world.tables
            ++ (billed_row f bill_db bill_host c row.id row.created_at order l_bill.world ∷ []))
        × ((handle_one f sqs
              (Shipping.handle f ship_db ship_host short)
              (delivery f envelope r_ship)
              l_ship).1.world.tables
            ≡ l_ship.world.tables
              ++ (shipped_row f ship_db ship_host short c row.id row.created_at order l_ship.world
                  ∷ []))
        × ((handle_one f sqs
              (Notifications.handle f redis c)
              (delivery f envelope r_notify)
              l_notify).1.world.sent
            ≡ f.uuid_text order.id ∷ l_notify.world.sent)
  fan_out sns relay_db relay_host w m message envelope sqs r_bill r_ship r_notify bill_db ship_db
        bill_host ship_host short redis l_bill l_ship l_notify same relaying taken sent wrapped
        can_bill can_ship can_email =
      let (event, claims) = relay_one-sends f relay_db sns relay_host c row.id w message sent in
      let stored = posted-row event (subst (Claims row.id event) same claims) in
      let around =
        relay_one-IsEnvelope f c row.id row.created_at order db host sqs sns relay_db relay_host w m
          message envelope relaying
          (subst (λ t. Distinct (ids t.outbox)) (sym same) posted-IsPaired.event_keys)
          (subst (λ t. In row t.outbox) (sym same) stored) taken sent wrapped in
      let storable = validate-IsStorable p documented v body valid order.id order.created_at in
      (
        bills f c row.id row.created_at order sqs envelope r_bill around bill_db bill_host l_bill
            can_bill storable.customer.1,
        ships f c row.id row.created_at order sqs envelope r_ship around ship_db ship_host short
            l_ship can_ship storable.customer.1 storable.item.1,
        emails f c row.id row.created_at order sqs envelope r_notify around redis l_notify
            can_email,
      )
