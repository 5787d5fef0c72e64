-- ===== src/Config.antt =====
-- shared/config.py: the settings that the modelled services read.
use outbox_fanout.Prelude.{ℕ, String, Bool, false}

pub record Config : Type 0 where
  pub billing_queue_name : String
  pub shipping_queue_name : String
  pub notify_queue_name : String
  pub billing_dlq_name : String
  pub shipping_dlq_name : String
  pub notify_dlq_name : String
  pub sqs_max_receive_count : ℕ
  pub sqs_wait_time_seconds : ℕ
  pub sqs_visibility_timeout_seconds : ℕ
  pub sqs_message_retention_seconds : ℕ
  pub sns_topic_name : String
  pub relay_batch_size : ℕ
  pub outbox_max_attempts : ℕ
  pub crash_after_publish : Bool
  pub break_outbox_insert : Bool
  pub notify_dedup_ttl_seconds : ℕ
  pub crash_after_mark : Bool

-- The values of the file where the environment sets nothing.
abbrev pub defaults : Config
defaults = record {
  billing_queue_name = "billing-queue";
  shipping_queue_name = "shipping-queue";
  notify_queue_name = "notify-queue";
  billing_dlq_name = "billing-dlq";
  shipping_dlq_name = "shipping-dlq";
  notify_dlq_name = "notify-dlq";
  sqs_max_receive_count = 5;
  sqs_wait_time_seconds = 20;
  sqs_visibility_timeout_seconds = 30;
  sqs_message_retention_seconds = 345_600;
  sns_topic_name = "order-events";
  relay_batch_size = 10;
  outbox_max_attempts = 5;
  crash_after_publish = false;
  break_outbox_insert = false;
  notify_dedup_ttl_seconds = 172_800;
  crash_after_mark = false;
}
