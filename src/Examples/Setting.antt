-- ===== src/Examples/Setting.antt =====
-- A database, a host, an SNS and tables to run the services on.
use outbox_fanout.Prelude.{ℕ, suc, false, none, some, [], ◌∷◌}
use outbox_fanout.Outcome.{client_error}
use outbox_fanout.Db.{World, Database}
use outbox_fanout.Json.{empty_object}
use outbox_fanout.Formats.{Decimal}
use outbox_fanout.Tables.{Order, OutboxEvent, Tables}
use outbox_fanout.Host.{Host}
use outbox_fanout.Order.Service.{OrderCreate}
use outbox_fanout.Relay.Publisher.{Sns, Publisher, accepted, acknowledged, rejected}

-- A database that answers every request.
abbrev pub calm : Database
calm = record { fault = λ _. none; locked = λ _ _. false; adapt = λ _. none; numeric = some }

abbrev pub host : Host
host = record { now = λ n. suc n; uuid4 = λ n. suc n; describe = λ _. "boom" }

abbrev pub amount : Decimal
amount = record { coefficient = 499; places = 2 }

abbrev pub request : OrderCreate
request = record { customer_id = "ann"; item = "lamp"; amount = amount }

abbrev pub order : Order
order = record { id = 1; customer_id = "ann"; item = "lamp"; amount = amount; created_at = 10 }

abbrev pub row : ℕ → ℕ → OutboxEvent
row id at = record {
  id = id;
  order_id = id;
  event_type = some "OrderCreated";
  payload = empty_object;
  published = false;
  created_at = at;
  published_at = none;
  attempts = 0;
  last_error = none;
  failed_at = none;
}

abbrev pub no_orders : World Tables (Unit {0})
no_orders = record { tables = record { orders = []; outbox = [] }; process = tt; tick = 0 }

-- Two rows to publish, the older one behind the other.
abbrev pub start : World Tables Publisher
start = record {
  tables = record { orders = []; outbox = row 1 20 ∷ row 2 10 ∷ [] };
  process = record { topic_arn = none; sent = [] };
  tick = 0;
}

abbrev pub steady : Sns
steady = record { create_topic = λ _ _. accepted "arn"; publish = λ _ _. acknowledged "m" }

-- An SNS that refuses every message for good.
abbrev pub poisoned : Sns
poisoned = record {
  create_topic = λ _ _. accepted "arn";
  publish = λ n m. rejected (client_error (some "InvalidParameter"));
}
