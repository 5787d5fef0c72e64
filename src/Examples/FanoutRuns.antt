-- ===== src/Examples/FanoutRuns.antt =====
-- A request and its way to the three consumers.
use outbox_fanout.Prelude.{◌≤◌, ◌≡◌, refl, none, some, String, List, [], ◌∷◌, arith, chars}
use outbox_fanout.Outcome.{ok}
use outbox_fanout.Db.{World, ticked}
use outbox_fanout.Json.{Fields, obj, str, entry, empty_object, get}
use outbox_fanout.Formats.{Uuid}
use outbox_fanout.Tables.{OutboxEvent, Tables}
use outbox_fanout.Config.{defaults}
use outbox_fanout.Order.Service
use outbox_fanout.Order.Service.{OrderCreate}
use outbox_fanout.Order.Routes
use outbox_fanout.Order.Validation.{validate, post_order}
use outbox_fanout.Order.Accepted.{order_from, event_from}
use outbox_fanout.Relay.Publisher.{Publisher, Message, message_of, publish, accepted}
use outbox_fanout.Relay.Service.{relay_one}
use outbox_fanout.Messages.Laws.{IsEnvelope}
use outbox_fanout.Consumer.{Sqs, Loop, handle_one}
use outbox_fanout.Billing
use outbox_fanout.Billing.Deliveries.{billed_row}
use outbox_fanout.Shipping
use outbox_fanout.Shipping.Deliveries.{shipped_row}
use outbox_fanout.Notifications
use outbox_fanout.Notifications.{Notifier}
use outbox_fanout.Pipeline.{delivery}
use outbox_fanout.Pipeline.Fanout.{fan_out}
use outbox_fanout.Examples.Notation.{notation}
use outbox_fanout.Examples.Setting.{calm, host, start, steady, no_orders}
use outbox_fanout.Examples.BodyRuns.{reader, documented, body}
use outbox_fanout.Examples.NotificationRuns.{redis}

abbrev order_create : OrderCreate
order_create = record {
  customer_id = "ann";
  item = "lamp";
  amount = record { coefficient = 5; places = 0 };
}

valid : validate reader (obj body) ≡ some order_create
unfolding validate get
valid = refl

abbrev row : OutboxEvent
row = event_from notation host defaults no_orders order_create

abbrev posted : World Tables Publisher
posted = record start {
  tables = (post_order notation calm host defaults reader (obj body) no_orders).1.tables;
}

abbrev message : Message
message = message_of notation "arn" row

abbrev envelope : Fields
envelope =
    entry "Type" (str "Notification")
      (entry "MessageId" (str "m") (entry "Message" (str message.body) empty_object))

abbrev sqs : Sqs
sqs = record {
  get_queue_url = λ n name. accepted "url";
  receive_message = λ n url. accepted [];
  delete_fault = λ n. none;
}

abbrev idle : {W : Type 0} → W → Loop W
idle w = record { world = w; queue_url = none; finished = []; deleted = []; tick = 0 }

abbrev no_bills : Loop Billing.Billing
no_bills = idle (record { tables = []; process = tt; tick = 0 })

abbrev no_shipments : Loop Shipping.Shipping
no_shipments = idle (record { tables = []; process = tt; tick = 0 })

abbrev no_emails : Loop (Notifier (List String))
no_emails = idle (record { redis = []; sent = []; tick = 0 })

abbrev short : Uuid → String
short u = "ABC"

short_fits : chars (Shipping.tracking_number short 1) ≤ 32
unfolding Shipping.tracking_number
short_fits = omega arith

wrapped : IsEnvelope notation message.body envelope
unfolding get
wrapped = record { kind = refl; message = refl }

taken : (publish notation steady defaults row posted.tables (ticked posted)).0 ≡ ok "m"
unfolding publish
taken = refl

sent : (relay_one notation calm steady host defaults 2 posted).1.process.sent ≡ message ∷ []
unfolding relay_one publish post_order validate get Routes.create_order Service.create_order
    outbox_fanout.Tables.insert_order outbox_fanout.Tables.insert_event
sent = refl

fan_out_example :
    ((handle_one notation sqs
        (Billing.handle notation calm host)
        (delivery notation envelope "b")
        no_bills).1.world.tables
      ≡ billed_row notation calm host defaults 2 2
          (order_from host no_orders order_create)
          no_bills.world
        ∷ [])
    × ((handle_one notation sqs
          (Shipping.handle notation calm host short)
          (delivery notation envelope "s")
          no_shipments).1.world.tables
        ≡ shipped_row notation calm host short defaults 2 2
            (order_from host no_orders order_create)
            no_shipments.world
          ∷ [])
    × ((handle_one notation sqs
          (Notifications.handle notation redis defaults)
          (delivery notation envelope "n")
          no_emails).1.world.sent
        ≡ notation.uuid_text 1 ∷ [])
fan_out_example =
    fan_out notation defaults reader documented (obj body) order_create valid calm host no_orders
      (record { answers = λ n. refl; fresh_order = refl; fresh_event = refl }) refl
      (record { events = refl; order_keys = tt; event_keys = tt; typed = tt }) steady calm host
      posted "m" message envelope sqs "b" "s" "n" calm calm host host short redis no_bills
      no_shipments no_emails refl
      (record { answers = λ n. refl; free = λ n id. refl; steady = refl; room = omega arith }) taken
      sent wrapped
      (record {
        served = record { answers = λ n. refl; fresh_key = refl };
        free = refl;
        amount = refl;
      })
      (record {
        served = record { answers = λ n. refl; fresh_key = refl };
        free = refl;
        tracking = short_fits;
      })
      (record { granted = refl; steady = refl })
