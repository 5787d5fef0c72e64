-- ===== src/Examples/ConsumerRuns.antt =====
-- Billing and Shipping behind a queue that delivers one event again and again.
use outbox_fanout.Prelude.{String, false, ◌≡◌, refl, none, some, List, [], ◌∷◌}
use outbox_fanout.Prelude.Predicates.{All, In}
use outbox_fanout.Outcome.{ok}
use outbox_fanout.Db.{World}
use outbox_fanout.Json.{Value, Fields, obj, str, entry, empty_object, get}
use outbox_fanout.Formats.{Uuid}
use outbox_fanout.Tables.{OutboxEvent}
use outbox_fanout.Config.{defaults}
use outbox_fanout.Order.Service.{event_of, build_payload}
use outbox_fanout.Relay.Publisher.{accepted, build_message, body_of}
use outbox_fanout.Messages.{unwrap}
use outbox_fanout.Messages.Laws.{IsEnvelope, unwrap-body_of}
use outbox_fanout.Consumer.{SqsMessage, Sqs, Loop, run}
use outbox_fanout.Consumer.Handled.{Handled}
use outbox_fanout.Consumer.Runs.{run-deleted}
use outbox_fanout.Claims.Laws.{IsLedger}
use outbox_fanout.Billing
use outbox_fanout.Billing.{BillingRecord}
use outbox_fanout.Billing.Laws.{Billed, bill-Billed}
use outbox_fanout.Billing.Deliveries.{order_event}
use outbox_fanout.Shipping
use outbox_fanout.Shipping.{Shipment, Parcel, parcel_of_event, tracking_number}
use outbox_fanout.Shipping.Laws.{Shipped, ship-Shipped}
use outbox_fanout.Billing.Main as billing
use outbox_fanout.Billing.Main.{billing_main-IsLedger}
use outbox_fanout.Shipping.Main as shipping
use outbox_fanout.Shipping.Main.{shipping_main-IsLedger}
use outbox_fanout.Examples.Notation.{notation}
use outbox_fanout.Examples.Setting.{calm, host, order}

abbrev event : Value
event = order_event notation calm host defaults 2 20 order

abbrev outbox_row : OutboxEvent
outbox_row = event_of notation defaults 2 20 order

abbrev envelope : Fields
envelope =
    entry "Type" (str "Notification") (
      entry "MessageId" (str "m")
        (entry "Message" (str (body_of notation outbox_row)) empty_object))

abbrev message : SqsMessage
message = record { body = some (body_of notation outbox_row); receipt_handle = "r" }

-- Every receive delivers the event twice.
abbrev queue : Sqs
queue = record {
  get_queue_url = λ _ _. accepted "url";
  receive_message = λ _ _. accepted (message ∷ message ∷ []);
  delete_fault = λ _. none;
}

abbrev no_bills : World (List BillingRecord) (Unit {0})
no_bills = record { tables = []; process = tt; tick = 0 }

abbrev no_shipments : World (List Shipment) (Unit {0})
no_shipments = record { tables = []; process = tt; tick = 0 }

abbrev idle : {W : Type 0} → W → Loop W
idle w = record { world = w; queue_url = none; finished = []; deleted = []; tick = 0 }

abbrev short : Uuid → String
short u = "ABC"

IsEnvelope_example : IsEnvelope notation (body_of notation outbox_row) envelope
unfolding get
IsEnvelope_example = record { kind = refl; message = refl }

unwrap-body_of_example :
    (unwrap notation (notation.dumps (obj envelope)) ≡ ok (obj (build_message notation outbox_row)))
    × (unwrap notation (body_of notation outbox_row) ≡ ok (obj (build_message notation outbox_row)))
unwrap-body_of_example = unwrap-body_of notation outbox_row envelope IsEnvelope_example

run-deleted_example :
    All
      (λ r.
        In r
          (run notation queue
            (Billing.handle notation calm host)
            (λ _. false)
            "billing"
            2
            (idle no_bills)).1.finished)
      (run notation queue
        (Billing.handle notation calm host)
        (λ _. false)
        "billing"
        2
        (idle no_bills)).1.deleted
run-deleted_example =
    run-deleted notation queue (Billing.handle notation calm host) (λ _. false) "billing" 2
      (idle no_bills) tt

bill-Billed_example :
    Billed notation calm event no_bills
      (Billing.bill notation calm host event no_bills).0
      (Billing.bill notation calm host event no_bills).1
bill-Billed_example = bill-Billed notation calm host event no_bills

abbrev parcel : Parcel
parcel = record {
  payload = obj (build_payload notation order);
  order_id = 1;
  tracking = tracking_number short 1;
}

ship-Shipped_example :
    Shipped notation host short event no_shipments
      (Shipping.ship notation calm host short event no_shipments).0
      (Shipping.ship notation calm host short event no_shipments).1
ship-Shipped_example = ship-Shipped notation calm host short event no_shipments

billing_main-IsLedger_example :
    IsLedger
      (λ r. r.order_id)
      []
      (billing.main notation calm host queue (λ _. false) defaults 2 (idle no_bills)).1.world.tables
billing_main-IsLedger_example =
    billing_main-IsLedger notation calm host queue (λ _. false) defaults 2 (idle no_bills) tt

shipping_main-IsLedger_example :
    IsLedger
      (λ r. r.order_id)
      []
      (shipping.main notation calm host short queue
        (λ _. false)
        defaults
        2
        (idle no_shipments)).1.world.tables
shipping_main-IsLedger_example =
    shipping_main-IsLedger notation calm host short queue (λ _. false) defaults 2
      (idle no_shipments) tt
