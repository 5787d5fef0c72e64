-- ===== src/Billing/Main.antt =====
-- billing/main.py: the process of Billing.
use outbox_fanout.Prelude.{ℕ, map}
use outbox_fanout.Prelude.Distinct.{Distinct}
use outbox_fanout.Db.{Database}
use outbox_fanout.Formats.{Formats}
use outbox_fanout.Host.{Host}
use outbox_fanout.Config.{Config}
use outbox_fanout.Consumer.{Sqs, Shutdown, Loop, Step}
use outbox_fanout.Consumer.Entrypoint.{consume_with_tables, consume_with_tables-world}
use outbox_fanout.Claims.Laws.{IsLedger, IsLedger-start}
use outbox_fanout.Billing.{Billing, handle}
use outbox_fanout.Billing.Deliveries.{handle-IsLedger}

module _ (f : Formats) (db : Database) (host : Host) (sqs : Sqs) (stop : Shutdown)
    (c : Config) where
  -- main of billing/main.py
  unfoldable pub main : ℕ → Step Billing
  unfolding consume_with_tables
  main rounds l = consume_with_tables f db sqs (handle f db host) stop c.billing_queue_name rounds l

  -- Billing's process bills no order twice, and changes no record that it has: whatever SQS
  -- delivers and however often, whatever the database answers, also to create_all, and whenever the
  -- process stops or dies, if the records were for distinct orders at the start, they are at the
  -- end, with new ones behind the old.
  pub billing_main-IsLedger :
      (rounds : ℕ) (l : Loop Billing)
      → Distinct (map (λ r. r.order_id) l.world.tables)
      → IsLedger (λ r. r.order_id) l.world.tables (main rounds l).1.world.tables
  unfolding main
  billing_main-IsLedger rounds l once =
      consume_with_tables-world f db sqs (handle f db host) stop c.billing_queue_name
        (λ rows. IsLedger (λ r. r.order_id) l.world.tables rows)
        (λ event w h. handle-IsLedger f db host event w l.world.tables h) rounds l
        (IsLedger-start (λ r. r.order_id) (λ r. r.id) l.world.tables once)
