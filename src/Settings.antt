-- ===== src/Settings.antt =====
-- shared/config.py: how every setting is read from the environment, in the order of the file, which
-- is the order in which a process that imports it fails.
-- The module body is one function per part of the file, put together by `load`.
pub mod Parsers
pub mod Decided
pub mod Laws
pub mod Defaults
use outbox_fanout.Prelude.{ℕ, ◌*◌, suc, String, Bool, true, false, Option, none, some}
use Prim.Native.String.{◌++◌}
use outbox_fanout.Outcome.{Outcome, ok, raise, config_error}
use outbox_fanout.Settings.Parsers.{ℤ, pos, Python, Environ, ◌>>=◌, get, require, get_int, get_bool}

pub record Postgres : Type 0 where
  pub pg_host : String
  pub pg_port : ℤ
  pub pg_user : String
  pub pg_db : String
  pub pg_password : String
  pub database_url : String
  pub sql_echo : Bool

pub record Redis : Type 0 where
  pub redis_host : String
  pub redis_port : ℤ
  pub redis_url : String
  pub notify_dedup_ttl_seconds : ℤ
  pub crash_after_mark : Bool

pub record Aws : Type 0 where
  pub aws_endpoint_url : String
  pub aws_region : String
  pub aws_access_key_id : String
  pub aws_secret_access_key : String
  pub sns_topic_name : String
  pub billing_queue_name : String
  pub shipping_queue_name : String
  pub notify_queue_name : String
  pub billing_dlq_name : String
  pub shipping_dlq_name : String
  pub notify_dlq_name : String
  pub sqs_max_receive_count : ℤ

pub record Relaying : Type 0 where
  pub relay_poll_interval_seconds : ℤ
  pub relay_batch_size : ℤ
  pub crash_after_publish : Bool
  pub outbox_max_attempts : ℤ
  pub break_outbox_insert : Bool

pub record Consuming : Type 0 where
  pub sqs_wait_time_seconds : ℤ
  pub sqs_max_messages : ℤ
  pub sqs_visibility_timeout_seconds : ℤ
  pub sqs_message_retention_seconds : ℤ

pub record Logging : Type 0 where
  pub log_level : String
  pub log_to_file : Bool
  pub log_dir : String
  pub log_file_max_bytes : ℤ
  pub log_file_backup_count : ℤ

pub record Settings : Type 0 where
  pub postgres : Postgres
  pub redis : Redis
  pub aws : Aws
  pub relaying : Relaying
  pub consuming : Consuming
  pub logging : Logging

module _ (py : Python) where
  -- `f"postgresql+psycopg://{PG_USER}:{PG_PASSWORD}@{PG_HOST}:{PG_PORT}/{PG_DB}"`
  abbrev pub database_url_of : String → String → String → ℤ → String → String
  database_url_of user password host port db =
      "postgresql+psycopg://"
      ++ (user
          ++ (":" ++ (password ++ ("@" ++ (host ++ (":" ++ (py.str_int port ++ ("/" ++ db))))))))

  -- `f"redis://{REDIS_HOST}:{REDIS_PORT}/0"`
  abbrev pub redis_url_of : String → ℤ → String
  redis_url_of host port = "redis://" ++ (host ++ (":" ++ (py.str_int port ++ "/0")))

module _ (py : Python) (env : Environ) where
  unfoldable pub postgres : Outcome Postgres
  unfolding get require get_int get_bool
  postgres = do
    pg_port ← get_int py env "PG_PORT" (pos 5432)
    pg_password ← require env "PG_PASSWORD"
    sql_echo ← get_bool py env "SQL_ECHO" false
    (let pg_host = get env "PG_HOST" "localhost" in
        let pg_user = get env "PG_USER" "myuser" in
        let pg_db = get env "PG_DB" "mydatabase" in
        ok (record {
          pg_host = pg_host;
          pg_port = pg_port;
          pg_user = pg_user;
          pg_db = pg_db;
          pg_password = pg_password;
          database_url =
              get env "DATABASE_URL" (database_url_of py pg_user pg_password pg_host pg_port pg_db);
          sql_echo = sql_echo;
        }))

  unfoldable pub redis : Outcome Redis
  unfolding get get_int get_bool
  redis = do
    redis_port ← get_int py env "REDIS_PORT" (pos 6379)
    ttl ← get_int py env "NOTIFY_DEDUP_TTL_SECONDS" (pos 172_800)
    crash_after_mark ← get_bool py env "CRASH_AFTER_MARK" false
    (let redis_host = get env "REDIS_HOST" "localhost" in
        ok (record {
          redis_host = redis_host;
          redis_port = redis_port;
          redis_url = get env "REDIS_URL" (redis_url_of py redis_host redis_port);
          notify_dedup_ttl_seconds = ttl;
          crash_after_mark = crash_after_mark;
        }))

  unfoldable pub aws : Outcome Aws
  unfolding get get_int
  aws = do
    count ← get_int py env "SQS_MAX_RECEIVE_COUNT" (pos 5)
    ok (record {
      aws_endpoint_url = get env "AWS_ENDPOINT_URL" "http://localhost:4566";
      aws_region = get env "AWS_DEFAULT_REGION" "us-east-1";
      aws_access_key_id = get env "AWS_ACCESS_KEY_ID" "test";
      aws_secret_access_key = get env "AWS_SECRET_ACCESS_KEY" "test";
      sns_topic_name = get env "SNS_TOPIC_NAME" "order-events";
      billing_queue_name = get env "BILLING_QUEUE_NAME" "billing-queue";
      shipping_queue_name = get env "SHIPPING_QUEUE_NAME" "shipping-queue";
      notify_queue_name = get env "NOTIFY_QUEUE_NAME" "notify-queue";
      billing_dlq_name = get env "BILLING_DLQ_NAME" "billing-dlq";
      shipping_dlq_name = get env "SHIPPING_DLQ_NAME" "shipping-dlq";
      notify_dlq_name = get env "NOTIFY_DLQ_NAME" "notify-dlq";
      sqs_max_receive_count = count;
    })

  -- the relay's settings, and BREAK_OUTBOX_INSERT behind them
  unfoldable pub relaying : Outcome Relaying
  unfolding get_int get_bool
  relaying = do
    interval ← get_int py env "RELAY_POLL_INTERVAL_SECONDS" (pos 2)
    size ← get_int py env "RELAY_BATCH_SIZE" (pos 10)
    crash ← get_bool py env "CRASH_AFTER_PUBLISH" false
    attempts ← get_int py env "OUTBOX_MAX_ATTEMPTS" (pos 5)
    break ← get_bool py env "BREAK_OUTBOX_INSERT" false
    ok (record {
      relay_poll_interval_seconds = interval;
      relay_batch_size = size;
      crash_after_publish = crash;
      outbox_max_attempts = attempts;
      break_outbox_insert = break;
    })

  unfoldable pub consuming : Outcome Consuming
  unfolding get_int
  consuming = do
    wait ← get_int py env "SQS_WAIT_TIME_SECONDS" (pos 20)
    most ← get_int py env "SQS_MAX_MESSAGES" (pos 10)
    timeout ← get_int py env "SQS_VISIBILITY_TIMEOUT_SECONDS" (pos 30)
    retention ← get_int py env "SQS_MESSAGE_RETENTION_SECONDS" (pos 345_600)
    ok (record {
      sqs_wait_time_seconds = wait;
      sqs_max_messages = most;
      sqs_visibility_timeout_seconds = timeout;
      sqs_message_retention_seconds = retention;
    })

  unfoldable pub logging : Outcome Logging
  unfolding get get_int get_bool
  logging = do
    log_to_file ← get_bool py env "LOG_TO_FILE" true
    bytes ← get_int py env "LOG_FILE_MAX_BYTES" (pos (10 * 1024 * 1024))
    count ← get_int py env "LOG_FILE_BACKUP_COUNT" (pos 4)
    ok (record {
      log_level = py.upper (get env "LOG_LEVEL" "INFO");
      log_to_file = log_to_file;
      log_dir = get env "LOG_DIR" "logs";
      log_file_max_bytes = bytes;
      log_file_backup_count = count;
    })

  -- The import of the module.
  unfoldable pub load : Outcome Settings
  unfolding postgres redis aws relaying consuming logging
  load = do
    p ← postgres
    r ← redis
    a ← aws
    y ← relaying
    c ← consuming
    l ← logging
    ok (record { postgres = p; redis = r; aws = a; relaying = y; consuming = c; logging = l })
