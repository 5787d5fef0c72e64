-- ===== src/Bootstrap.antt =====
-- bootstrap/main.py: the topic, the queues with their dead letter queues, the subscriptions, and the
-- checks behind them.
pub mod Shape
pub mod Subscribed
pub mod Redriven
pub mod Checked
pub mod Repeated
pub mod Clashless
pub mod Provisioned
pub mod Complete
use outbox_fanout.Prelude.{
  ◌++◌, ℕ, String, Bool, true, false, not, Option, none, some, List, [], ◌∷◌, map, any, str_eq,
  if◌then◌else◌,
}
use outbox_fanout.Outcome.{key_error, json_decode_error, other_error}
use outbox_fanout.Json.{
  Value, num, str, arr, obj, Items, empty_list, element, Fields, empty_object, entry, get, is_text,
}
use outbox_fanout.Formats.{Formats}
use outbox_fanout.Config.{Config}
use outbox_fanout.Cloud.{
  Script, done, fail, Attributes, set_queue_attributes, create_queue, subscribe,
  set_subscription_attributes, list_subscriptions, get_redrive_policy, call, ask, ◌>>=◌, ◌>>◌,
}
use outbox_fanout.Aws.{topic_arn, queue_url, queue_arn}

module _ (c : Config) where
  -- QUEUE_NAMES
  abbrev pub queue_names : List String
  queue_names = c.billing_queue_name ∷ c.shipping_queue_name ∷ c.notify_queue_name ∷ []

  -- DLQ_FOR[name]: of equal keys of a dict the last one counts
  unfoldable pub dlq_for : String → Script String
  dlq_for name =
      if str_eq c.notify_queue_name name
      then done c.notify_dlq_name
      else if str_eq c.shipping_queue_name name
      then done c.shipping_dlq_name
      else if str_eq c.billing_queue_name name
      then done c.billing_dlq_name
      else fail key_error

abbrev pub singleton : Value → Value
singleton v = arr (element v empty_list)

-- FILTER_POLICY
abbrev pub filter_policy : Value
filter_policy = obj (entry "event_type" (singleton (str "OrderCreated")) empty_object)

module _ (f : Formats) (c : Config) where
  -- _queue_attributes
  unfoldable pub queue_attributes : Attributes
  queue_attributes =
      ("VisibilityTimeout", f.str_of (num c.sqs_visibility_timeout_seconds))
      ∷ ("ReceiveMessageWaitTimeSeconds", f.str_of (num c.sqs_wait_time_seconds))
      ∷ ("MessageRetentionPeriod", f.str_of (num c.sqs_message_retention_seconds))
      ∷ []

  -- _redrive_policy
  unfoldable pub redrive_policy : String → Value
  redrive_policy dlq_arn = obj (
      entry "deadLetterTargetArn" (str dlq_arn)
        (entry "maxReceiveCount" (num c.sqs_max_receive_count) empty_object))

-- _queue_policy
unfoldable pub queue_policy : String → String → Value
queue_policy arn topic = obj (
    entry "Version" (str "2012-10-17") (
      entry "Statement"
        (singleton (
          obj (
            entry "Sid" (str "AllowOrderEventsTopicToSendMessages") (
              entry "Effect" (str "Allow") (
                entry "Principal" (obj (entry "Service" (str "sns.amazonaws.com") empty_object)) (
                  entry "Action" (str "sqs:SendMessage") (
                    entry "Resource" (str arn) (
                      entry "Condition"
                        (obj (
                          entry "ArnEquals" (obj (entry "aws:SourceArn" (str topic) empty_object))
                            empty_object))
                        empty_object))))))))
        empty_object))

module _ (f : Formats) (c : Config) where
  -- The attributes of a queue. Only a queue with a dead letter queue has a RedrivePolicy.
  unfoldable pub attributes_for : Option String → Attributes
  unfolding queue_attributes redrive_policy
  attributes_for none = queue_attributes f c
  attributes_for (some dlq_arn) =
      queue_attributes f c ++ (("RedrivePolicy", f.dumps (redrive_policy f c dlq_arn)) ∷ [])

  -- ensure_queue: created bare, then configured
  unfoldable pub ensure_queue : String → Option String → Script (String × String)
  unfolding queue_arn
  ensure_queue name dlq_arn = do
    url ← call (create_queue name)
    call (set_queue_attributes url (attributes_for dlq_arn))
    arn ← queue_arn url
    done (url, arn)

  -- ensure_subscription: the permission first
  unfoldable pub ensure_subscription : String → String → String → Script String
  ensure_subscription topic url arn = do
    call (set_queue_attributes url (("Policy", f.dumps (queue_policy arn topic)) ∷ []))
    subscription ← call (subscribe topic arn)
    call (set_subscription_attributes subscription "FilterPolicy" (f.dumps filter_policy))
    done subscription

  -- The body of the first `for` loop of `main`.
  unfoldable pub provision : String → String → Script Unit
  unfolding ensure_queue ensure_subscription dlq_for
  provision topic name = do
    dlq_name ← dlq_for c name
    dlq ← ensure_queue dlq_name none
    queue ← ensure_queue name (some dlq.1)
    ensure_subscription topic queue.0 queue.1
    done tt

  unfoldable pub provision_all : String → List String → Script Unit
  unfolding provision
  provision_all topic [] = done tt
  provision_all topic (name ∷ names) = provision topic name >> provision_all topic names

  -- `{aws.queue_arn(aws.queue_url(n)) for n in QUEUE_NAMES}`
  unfoldable pub expected_arns : List String → Script (List String)
  unfolding queue_arn queue_url
  expected_arns [] = done []
  expected_arns (name ∷ names) = do
    url ← queue_url name
    arn ← queue_arn url
    arns ← expected_arns names
    done (arn ∷ arns)

  abbrev pub is_subscribed : List String → String → Bool
  is_subscribed endpoints arn = any (str_eq arn) endpoints

  -- `policy.get("deadLetterTargetArn") == expected`: an AttributeError if the policy is no dict
  abbrev pub targets : String → Value → Script Bool
  targets dlq_arn (obj fs) = done (is_text dlq_arn (get "deadLetterTargetArn" fs))
  targets dlq_arn v = fail other_error

  -- json.loads
  abbrev pub parsed : Option Value → Script Value
  parsed none = fail json_decode_error
  parsed (some v) = done v

  abbrev pub redrives : String → Option String → Script Bool
  redrives name none = done false
  redrives name (some text) = do
    policy ← parsed (f.loads text)
    dlq_name ← dlq_for c name
    url ← queue_url dlq_name
    dlq_arn ← queue_arn url
    targets dlq_arn policy

  -- The body of the second `for` loop of `main`: whether the queue passes.
  unfoldable pub verify : String → Script Bool
  unfolding queue_url queue_arn dlq_for get
  verify name = do url ← queue_url name; policy ← ask (get_redrive_policy url); redrives name policy

  -- The second loop: it ends at the first queue that fails.
  unfoldable pub verify_all : List String → Script ℕ
  unfolding verify
  verify_all [] = done 0
  verify_all (name ∷ names) = do
    passes ← verify name
    (let rest = verify_all names in if passes then rest else done 1)

  abbrev pub all_subscribed : List String → List String → Bool
  all_subscribed endpoints arns = not (any (λ arn. not (is_subscribed endpoints arn)) arns)

  -- `main` behind its first loop
  unfoldable pub check : String → Script ℕ
  unfolding expected_arns verify_all
  check topic = do
    endpoints ← ask (list_subscriptions topic)
    arns ← expected_arns (queue_names c)
    (if all_subscribed endpoints arns then verify_all (queue_names c) else done 1)

  -- main: the exit code
  unfoldable pub main : Script ℕ
  unfolding topic_arn provision_all check
  main = do topic ← topic_arn c.sns_topic_name; provision_all topic (queue_names c); check topic
