-- ===== src/Examples/ClusterRuns.antt =====
-- Two relays on one outbox, and an order on its way to Billing.
use outbox_fanout.Prelude.{count, ◌+◌, ◌≤◌, true, false, ◌≡◌, refl, inl, inr, none, [], ◌∷◌, arith}
use outbox_fanout.Prelude.Predicates.{All}
use outbox_fanout.Outcome.{ok}
use outbox_fanout.Db.{World, ticked}
use outbox_fanout.Json.{Fields, str, entry, empty_object, get}
use outbox_fanout.Config.{defaults}
use outbox_fanout.Tables.{OutboxEvent, Tables}
use outbox_fanout.Order.Service.{event_of}
use outbox_fanout.Messages.Laws.{IsEnvelope}
use outbox_fanout.Consumer.{Sqs, Loop}
use outbox_fanout.Billing.{Billing}
use outbox_fanout.Billing.Deliveries.{billed_row}
use outbox_fanout.Relay.Publisher.{Publisher, accepted, message_of, body_of, publish}
use outbox_fanout.Relay.Service.{relay_one}
use outbox_fanout.Relay.Main.{main}
use outbox_fanout.Relay.Cluster.{
  Cluster, holds, claims, sends, retries, ends, Steps, none_more, then_more,
}
use outbox_fanout.Relay.Cluster.Accounts.{is_message_of, is_id}
use outbox_fanout.Relay.Cluster.Once.{IsStart, Steps-once}
use outbox_fanout.Relay.Cluster.Counting.{is_published}
use outbox_fanout.Relay.Cluster.Sessions.{Mirrors, relay_one-Steps}
use outbox_fanout.Relay.Cluster.Process.{main-Steps}
use outbox_fanout.Relay.Bounds.{IsBounded, main-IsBounded}
use outbox_fanout.Pipeline.{delivery, consume, relay_one-consume}
use outbox_fanout.Examples.Notation.{notation}
use outbox_fanout.Examples.Setting.{calm, host, start, row, steady, poisoned, order}

abbrev idle : Cluster
idle = record { tables = start.tables; sessions = []; sent = []; broken = []; retried = [] }

-- The first relay dies behind its publish, which boto3 sent twice, while the second one has the other
-- row; then the second takes the row over.
abbrev crashed : Cluster
crashed = record idle {
  sessions = record { relay = 2; event = row 2 10; sent = false } ∷ [];
  sent = (1, message_of notation "arn" (row 1 20)) ∷ (1, message_of notation "arn" (row 1 20)) ∷ [];
  broken = 1 ∷ [];
  retried = 1 ∷ [];
}

abbrev taken_over : Cluster
taken_over = record crashed {
  sessions =
      record { relay = 2; event = row 1 20; sent = true }
      ∷ record { relay = 2; event = row 2 10; sent = false }
      ∷ [];
  sent = (1, message_of notation "arn" (row 1 20)) ∷ crashed.sent;
}

to_crashed : Steps notation idle crashed
to_crashed =
    then_more _ _ _
      (claims 1 (row 1 20) (record { row = inl refl; same_id = refl; unpublished = refl }) refl)
      (then_more _ _ _
        (claims 2 (row 2 10) (record { row = inr (inl refl); same_id = refl; unpublished = refl })
          refl)
        (then_more _ _ _
          (sends 1 (row 1 20) "arn" (record { relay = 2; event = row 2 10; sent = false } ∷ []) []
            refl)
          (then_more _ _ _
            (retries 1 (row 1 20) "arn" (record { relay = 2; event = row 2 10; sent = false } ∷ [])
              [] refl)
            (then_more _ _ _
              (ends (record { relay = 1; event = row 1 20; sent = true })
                (record { relay = 2; event = row 2 10; sent = false } ∷ []) [] refl)
              (none_more crashed)))))

to_taken_over : Steps notation crashed taken_over
to_taken_over =
    then_more _ _ _
      (claims 2 (row 1 20) (record { row = inl refl; same_id = refl; unpublished = refl }) refl)
      (then_more _ _ _
        (sends 2 (row 1 20) "arn" [] (record { relay = 2; event = row 2 10; sent = false } ∷ [])
          refl)
        (none_more taken_over))

starts : IsStart idle
starts = record {
  keys = λ id. ground arith;
  unsent = λ id. ground arith;
  idle = refl;
  silent = refl;
  whole = refl;
  unretried = refl;
}

Steps-once_example :
    (count (holds 1) crashed.sessions ≤ 1)
    × (count (is_message_of 1) crashed.sent
        ≤ count (is_id 1) crashed.broken + count (is_id 1) crashed.retried + 1)
    × (count (is_published 1) crashed.tables.outbox ≤ count (is_message_of 1) crashed.sent)
Steps-once_example = Steps-once notation idle crashed 1 starts to_crashed

relay_one-Steps_example :
    (t : Cluster) × Steps notation idle t
    × (t.sessions ≡ [])
    × Mirrors t (relay_one notation calm steady host defaults 1 start).1
relay_one-Steps_example =
    relay_one-Steps notation calm steady host defaults 1 start 1 idle
      (record { tables = refl; sent = refl }) refl

main-IsBounded_example :
    All (IsBounded 5) (main notation calm poisoned host defaults 3 start).1.tables.outbox
main-IsBounded_example = main-IsBounded notation calm poisoned host defaults 3 start (
  record { reason = refl; unspent = inr (omega arith) },
  (record { reason = refl; unspent = inr (omega arith) }, tt),
)

abbrev event_row : OutboxEvent
event_row = event_of notation defaults 2 20 order

-- The order's event in the outbox, and a consumer of Billing that has no records.
abbrev placed : World Tables Publisher
placed = record start { tables = record { orders = order ∷ []; outbox = event_row ∷ [] } }

abbrev sqs : Sqs
sqs = record {
  get_queue_url = λ n name. accepted "url";
  receive_message = λ n url. accepted [];
  delete_fault = λ n. none;
}

abbrev no_bills : Loop Billing
no_bills = record {
  world = record { tables = []; process = tt; tick = 0 };
  queue_url = none;
  finished = [];
  deleted = [];
  tick = 0;
}

abbrev envelope : Fields
envelope =
    entry "Type" (str "Notification") (
      entry "MessageId" (str "m") (entry "Message" (str (body_of notation event_row)) empty_object))

placed_publish :
    (publish notation steady defaults event_row placed.tables (ticked placed)).0 ≡ ok "m"
unfolding publish
placed_publish = refl

placed_sent :
    (relay_one notation calm steady host defaults 2 placed).1.process.sent
    ≡ message_of notation "arn" event_row ∷ placed.process.sent
unfolding relay_one publish
placed_sent = refl

-- The consumer's state when SQS delivers the message again.
abbrev redelivered : Loop Billing
redelivered = record no_bills {
  world =
      (consume notation defaults 2 20 order calm host sqs (delivery notation envelope "r")
        no_bills).world;
  tick = 9;
}

wrapped : IsEnvelope notation (message_of notation "arn" event_row).body envelope
unfolding get
wrapped = record { kind = refl; message = refl }

relay_one-consume_example :
    ((consume notation defaults 2 20 order calm host sqs
        (delivery notation envelope "r")
        no_bills).world.tables
      ≡ billed_row notation calm host defaults 2 20 order no_bills.world ∷ [])
    × ((consume notation defaults 2 20 order calm host sqs
          (delivery notation envelope "r")
          redelivered).world.tables
        ≡ (consume notation defaults 2 20 order calm host sqs
            (delivery notation envelope "r")
            no_bills).world.tables)
relay_one-consume_example =
    relay_one-consume notation defaults 2 20 order calm host sqs steady calm host placed "m"
      (message_of notation "arn" event_row) envelope "r" no_bills redelivered
      (record { answers = λ n. refl; free = λ n id. refl; steady = refl; room = omega arith })
      (tt, tt) (inl refl) placed_publish placed_sent wrapped
      (record { answers = λ n. refl; fresh_key = refl }) refl (omega arith) refl refl

main-Steps_example :
    (t : Cluster) × Steps notation idle t
    × (t.sessions ≡ [])
    × Mirrors t (main notation calm steady host defaults 3 start).1
main-Steps_example =
    main-Steps notation calm steady host defaults 3 start idle refl
      (record { tables = refl; sent = refl })
