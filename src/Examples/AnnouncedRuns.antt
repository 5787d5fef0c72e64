-- ===== src/Examples/AnnouncedRuns.antt =====
-- Two requests, and the relay behind them.
use outbox_fanout.Prelude.{◌*◌, ◌≤◌, refl, [], ◌∷◌, length, arith}
use outbox_fanout.Prelude.Predicates.{All, In}
use outbox_fanout.Db.{World}
use outbox_fanout.Formats.{Uuid, Timestamp}
use outbox_fanout.Tables
use outbox_fanout.Config.{defaults}
use outbox_fanout.Order.Service
use outbox_fanout.Order.Service.{event_of}
use outbox_fanout.Order.Routes
use outbox_fanout.Order.Atomicity.{serve}
use outbox_fanout.Relay.Publisher.{Publisher, body_of}
use outbox_fanout.Relay.Main.{main}
use outbox_fanout.Relay.Safety.{bodies}
use outbox_fanout.Pipeline.Announced.{serve-main}
use outbox_fanout.Examples.Notation.{notation}
use outbox_fanout.Examples.Setting.{calm, host, start, steady, request, no_orders}

abbrev served : World Tables.Tables (Unit {0})
served = serve notation calm host defaults (request ∷ request ∷ []) no_orders

abbrev polled : World Tables.Tables Publisher
polled = record start { tables = served.tables }

enough : 5 * length polled.tables.outbox ≤ 10
unfolding serve Routes.create_order Service.create_order Tables.insert_order Tables.insert_event
enough = omega arith

serve-main_example :
    All
      (λ o.
        (id : Uuid) × ((at : Timestamp) × In
            (body_of notation (event_of notation defaults id at o))
            (bodies (main notation calm steady host defaults 10 polled).1.process.sent)))
      served.tables.orders
serve-main_example =
    serve-main notation defaults (omega arith) calm calm host host steady (request ∷ request ∷ [])
      10 no_orders polled refl refl
      (record { answers = λ n. refl; free = λ n id. refl; steady = refl; room = omega arith })
      (record { topic = λ n name. ("arn", refl); takes = λ n m. ("m", refl) }) enough
