-- ===== src/Settings/Defaults.antt =====
-- What shared/config.py reads where the environment sets nothing but the password.
use outbox_fanout.Prelude.{
  String, false, true, ◌≡◌, ◌≢◌, refl, inl, inr, none, some, str_eq, eq_iff, Bool-cases,
  if◌then◌else◌,
}
use outbox_fanout.Outcome.{ok}
use outbox_fanout.Config.{Config, defaults}
use outbox_fanout.Settings.Parsers.{pos, Python, Environ}
use outbox_fanout.Settings.{Settings, database_url_of, redis_url_of, load}

-- The values that the modelled services read of these settings.
pub record Agrees (s : Settings) (c : Config) : Type 0 where
  pub billing_queue_name : s.aws.billing_queue_name ≡ c.billing_queue_name
  pub shipping_queue_name : s.aws.shipping_queue_name ≡ c.shipping_queue_name
  pub notify_queue_name : s.aws.notify_queue_name ≡ c.notify_queue_name
  pub billing_dlq_name : s.aws.billing_dlq_name ≡ c.billing_dlq_name
  pub shipping_dlq_name : s.aws.shipping_dlq_name ≡ c.shipping_dlq_name
  pub notify_dlq_name : s.aws.notify_dlq_name ≡ c.notify_dlq_name
  pub sns_topic_name : s.aws.sns_topic_name ≡ c.sns_topic_name
  pub sqs_max_receive_count : s.aws.sqs_max_receive_count ≡ pos c.sqs_max_receive_count
  pub sqs_wait_time_seconds : s.consuming.sqs_wait_time_seconds ≡ pos c.sqs_wait_time_seconds
  pub sqs_visibility_timeout_seconds :
      s.consuming.sqs_visibility_timeout_seconds ≡ pos c.sqs_visibility_timeout_seconds
  pub sqs_message_retention_seconds :
      s.consuming.sqs_message_retention_seconds ≡ pos c.sqs_message_retention_seconds
  pub relay_batch_size : s.relaying.relay_batch_size ≡ pos c.relay_batch_size
  pub outbox_max_attempts : s.relaying.outbox_max_attempts ≡ pos c.outbox_max_attempts
  pub crash_after_publish : s.relaying.crash_after_publish ≡ c.crash_after_publish
  pub break_outbox_insert : s.relaying.break_outbox_insert ≡ c.break_outbox_insert
  pub notify_dedup_ttl_seconds : s.redis.notify_dedup_ttl_seconds ≡ pos c.notify_dedup_ttl_seconds
  pub crash_after_mark : s.redis.crash_after_mark ≡ c.crash_after_mark

-- The environment sets the password and nothing else.
abbrev pub only_password : String → Environ
only_password password name = if str_eq name "PG_PASSWORD" then some password else none

module _ (py : Python) (password : String) where
  abbrev settings : Settings
  settings = record {
    postgres = record {
      pg_host = "localhost";
      pg_port = pos 5432;
      pg_user = "myuser";
      pg_db = "mydatabase";
      pg_password = password;
      database_url = database_url_of py "myuser" password "localhost" (pos 5432) "mydatabase";
      sql_echo = false;
    };
    redis = record {
      redis_host = "localhost";
      redis_port = pos 6379;
      redis_url = redis_url_of py "localhost" (pos 6379);
      notify_dedup_ttl_seconds = pos 172_800;
      crash_after_mark = false;
    };
    aws = record {
      aws_endpoint_url = "http://localhost:4566";
      aws_region = "us-east-1";
      aws_access_key_id = "test";
      aws_secret_access_key = "test";
      sns_topic_name = "order-events";
      billing_queue_name = "billing-queue";
      shipping_queue_name = "shipping-queue";
      notify_queue_name = "notify-queue";
      billing_dlq_name = "billing-dlq";
      shipping_dlq_name = "shipping-dlq";
      notify_dlq_name = "notify-dlq";
      sqs_max_receive_count = pos 5;
    };
    relaying = record {
      relay_poll_interval_seconds = pos 2;
      relay_batch_size = pos 10;
      crash_after_publish = false;
      outbox_max_attempts = pos 5;
      break_outbox_insert = false;
    };
    consuming = record {
      sqs_wait_time_seconds = pos 20;
      sqs_max_messages = pos 10;
      sqs_visibility_timeout_seconds = pos 30;
      sqs_message_retention_seconds = pos 345_600;
    };
    logging = record {
      log_level = py.upper "INFO";
      log_to_file = true;
      log_dir = "logs";
      log_file_max_bytes = pos 10_485_760;
      log_file_backup_count = pos 4;
    };
  }

  load-settings : str_eq password "" ≡ false → load py (only_password password) ≡ ok settings
  unfolding load
  load-settings e = rw e refl

  is_given : password ≢ "" → str_eq password "" ≡ false
  is_given h = elim (Bool-cases (str_eq password "")) [
    | inl e ↦ absurd (h ((eq_iff password "").0 e))
    | inr e ↦ e
  ]

  -- With only a password in the environment, the settings are the defaults of the file, and the
  -- database's address is made of the default user, host, port and name and of the password.
  pub load-defaults :
      password ≢ ""
      → (s : Settings) × (load py (only_password password) ≡ ok s)
        × Agrees s defaults
        × (s.postgres.database_url
            ≡ database_url_of py "myuser" password "localhost" (pos 5432) "mydatabase")
  load-defaults given = (
    settings,
    load-settings (is_given given),
    record {
      billing_queue_name = refl;
      shipping_queue_name = refl;
      notify_queue_name = refl;
      billing_dlq_name = refl;
      shipping_dlq_name = refl;
      notify_dlq_name = refl;
      sns_topic_name = refl;
      sqs_max_receive_count = refl;
      sqs_wait_time_seconds = refl;
      sqs_visibility_timeout_seconds = refl;
      sqs_message_retention_seconds = refl;
      relay_batch_size = refl;
      outbox_max_attempts = refl;
      crash_after_publish = refl;
      break_outbox_insert = refl;
      notify_dedup_ttl_seconds = refl;
      crash_after_mark = refl;
    },
    refl,
  )
