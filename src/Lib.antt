-- ===== src/Lib.antt =====
-- A transactional outbox with fan-out: POST /orders writes an order and an outbox row in one
-- transaction; the relay polls the outbox, publishes each row to an SNS topic and marks it; SQS
-- queues fan the messages out to three consumers, of which Billing and Shipping recognise an
-- order they have seen by a unique column, and Notifications by a Redis key. A bootstrap program
-- sets up the topic, the queues and their dead letter queues, and checks them.
--
-- How the parts are modelled:
-- - A process runs over a World (Db.antt): the committed tables, its own state and the number of
--   external calls made so far. A session's block works on its own copy of the tables, which the
--   commit of session_scope (shared/db.py) makes the committed ones.
-- - Outcome.antt: a Python call returns, raises one of the exceptions that the code tells apart,
--   or dies in os._exit.
-- - Tables.antt: Order and OutboxEvent (order/models.py) with the constraints of their columns.
-- - Order/Service.antt and Order/Routes.antt: create_order of order/service.py and the endpoints
--   of order/routes.py. Order/Validation.antt is POST /orders with the body that arrives: the
--   fields of order/schemas.py, with pydantic's checks of a text and of a decimal as parameters,
--   whose documented meaning is IsDocumented. Order/Atomicity.antt, Order/Responses.antt,
--   Order/Prices.antt, Order/Accepted.antt, Order/Reading.antt and Order/Listing.antt are about
--   the endpoints.
-- - Relay/Publisher.antt, Relay/Service.antt and Relay/Main.antt: relay/publisher.py,
--   relay/service.py and relay/main.py, function by function. Relay/Effects.antt and
--   Relay/FailureEffect.antt list what a call can have done; Relay/Induction.antt lifts an
--   invariant from those cases to any run, and Relay/Safety.antt uses it. Relay/Budget.antt,
--   Relay/Served.antt, Relay/Progress.antt, Relay/Alive.antt, Relay/Drain.antt and
--   Relay/Delivered.antt are about progress, Relay/Pending.antt about the batch,
--   Relay/Success.antt about a row that SNS takes, Relay/Bounds.antt about the columns that the
--   relay writes, and Relay/Shutdown.antt about the loop that ends on a signal.
-- - Relay/Cluster.antt: several relays on one database, as a step relation over their sessions,
--   which relay/service.py keeps apart by FOR UPDATE SKIP LOCKED. That boto3 may send a message
--   again (the retries of shared/aws.py) is a step. Relay/Cluster/Counting.antt,
--   Relay/Cluster/Accounts.antt and Relay/Cluster/Once.antt are about every interleaving, and
--   Relay/Cluster/Sessions.antt and Relay/Cluster/Process.antt tie the steps to relay_one and
--   main.
-- - Pipeline.antt: the relay, SNS's envelope, the consumer loop and Billing in a row.
--   Pipeline/Fanout.antt: from a request to all three consumers. Pipeline/Announced.antt: from
--   any number of requests to SNS.
-- - Cloud.antt: SNS and SQS as bootstrap/main.py and shared/aws.py provision them. A program
--   that calls them is a script of requests and reads; Cloud/Runs.antt takes a run apart, and
--   Cloud/Rerun.antt is about running a script again. Aws.antt has the lookups of shared/aws.py,
--   Bootstrap.antt bootstrap/main.py; Bootstrap/Subscribed.antt, Bootstrap/Redriven.antt and
--   Bootstrap/Checked.antt are about its checks and exit code, and Bootstrap/Repeated.antt about
--   a second run, for which Bootstrap/Shape.antt says which parts write. Cloud/Ensured.antt has
--   rules for scripts against a service that answers every call; with them
--   Bootstrap/Clashless.antt, Bootstrap/Provisioned.antt and Bootstrap/Complete.antt are about a
--   whole run.
-- - Clients.antt: the constructors of shared/aws.py and shared/redis_client.py behind lru_cache;
--   Clients/Once.antt is about how often each is called.
-- - Settings.antt and Settings/Parsers.antt: shared/config.py, each setting in the order of the
--   file; Settings/Decided.antt and Settings/Laws.antt are about the environments that it
--   accepts, and Settings/Defaults.antt about the one that sets only the password.
-- - Log.antt and Log/Setup.antt: shared/log.py over the loggers of a process; Log/Once.antt is
--   about setup, Log/Scope.antt about correlation_scope. Order/Middleware.antt is the
--   correlation middleware of order/main.py, and Order/Tracing.antt is about it.
--   Order/Lifespan.antt is the lifespan of order/main.py and the lines that it logs itself, with
--   the engine of a URL as a parameter.
-- - Messages.antt: shared/messages.py. Json.antt and Formats.antt: JSON values and the texts.
-- - Consumer.antt: the loop of shared/consumer.py with the handler as a parameter.
-- - Claims.antt: reading an event, and INSERT with ON CONFLICT DO NOTHING, which Billing.antt
--   (billing/service.py, billing/models.py) and Shipping.antt (shipping/service.py,
--   shipping/models.py) share. Consumer/Entrypoint.antt, Billing/Main.antt, Shipping/Main.antt
--   and Notifications/Main.antt are their processes (billing/main.py, shipping/main.py and
--   notifications/main.py).
-- - Notifications.antt: notifications/service.py and the probe of notifications/main.py.
--   Notifications/Expiry.antt adds keys that expire between deliveries.
-- - Config.antt and Host.antt: the settings that these parts read, as natural numbers, flags and
--   texts (Settings/Defaults.antt compares them with those of shared/config.py); the clock,
--   uuid4 and the text of an exception.
-- - Examples: bodies that arrive, an order on its way to the consumers, runs on a calm database,
--   on an SNS that refuses every message, on a queue that delivers one event again and again, on
--   a Redis that is a list of keys, on an SNS and SQS that keep a journal of their requests, of
--   two relays on one outbox, and of a process with uvicorn's loggers. Examples/Notation.antt is
--   a concrete notation for JSON values that meets the laws of Formats.
--
-- Code outside the repository is a parameter: Database (the exception, if any, that each request
-- is answered with, and who holds row locks), Service, Sns, Sqs, Redis, Host, Python, Pydantic,
-- Io, Clock, Library (the constructors of the clients) and Formats. A parameter answers each
-- call as it likes, by the number of calls made before, unless a theorem names a condition. Of
-- Formats only the round trips are used; of Redis, in Notifications/Laws.antt and
-- Notifications/Once.antt, what its documentation says of SET NX and DEL while no key expires,
-- and in Notifications/Expiry.antt that an expiry takes one key; of Service, in
-- Bootstrap/Repeated.antt, that each request is idempotent and that a queue keeps its ARN, and
-- in Bootstrap/Complete.antt that it answers every call, shows at once what a request has set,
-- and lists the first hundred subscriptions of a topic; of Pydantic, that what a check accepts
-- is within the bounds of its field.
--
-- Bounds: poll_loop of Relay/Main.antt and run of Consumer.antt count the rounds that the
-- process makes before it is shut down; a theorem is about any number of them. loop of
-- Relay/Main.antt has the shutdown event and takes fuel, for which one more than the polls
-- before the event is enough (Relay/Shutdown.antt). The probe of Redis makes five attempts.
-- max_attempts times the number of rows are enough polls to settle the outbox
-- (Relay/Drain.antt).
--
-- What is not modelled: log lines outside shared/log.py, the middleware and the lifespan, the
-- formats of lines and the rotation of files; the delivery of signals, of which the relay sees
-- the event that they set; a commit that the server applies although its answer is lost (a
-- refused commit is taken as not applied); within one run of a relay's main, writes of other
-- processes between the start and the end of a session, beyond the row locks they hold
-- (Relay/Cluster.antt has them as steps); the delay with which AWS shows what a request has set,
-- and the pages of a list behind the first; the receive count of an SQS message, which is only
-- logged; the order of rows that tie in ORDER BY, which here is that of the table, or in GET
-- /outbox its reverse; the two places to which NUMERIC(12, 2) pads the amount of a stored order,
-- which here stays as it was given; the sign of a Decimal; a NUL in a text that a consumer
-- stores, which its database refuses (the Order Service, where that is modelled, stores none);
-- FastAPI's routing and the serialisation of its responses; a negative limit of GET /outbox,
-- which the database refuses; the schema that create_all makes, whose missing tables count as
-- empty ones; a LOG_LEVEL that names an attribute of the logging module which is no level.
pub mod Settings
pub mod Log
pub mod Prelude
pub mod Outcome
pub mod Db
pub mod Json
pub mod Formats
pub mod Tables
pub mod Host
pub mod Config
pub mod Clients
pub mod Cloud
pub mod Aws
pub mod Bootstrap
pub mod Relay
pub mod Order
pub mod Messages
pub mod Consumer
pub mod Claims
pub mod Billing
pub mod Shipping
pub mod Notifications
pub mod Pipeline
pub mod Examples
