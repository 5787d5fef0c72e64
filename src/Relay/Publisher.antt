-- ===== src/Relay/Publisher.antt =====
-- relay/publisher.py: an outbox row becomes an SNS message.
-- SNS is a service outside the repository: a parameter that answers each call as it likes. The
-- process's state has the cached ARN, and the messages that SNS took, the newest first: one for a call
-- of `publish`, also where boto3 sent it again.
use outbox_fanout.Prelude.{String, ℕ, Option, none, some, List, ◌∷◌, contains, if◌then◌else◌}
use outbox_fanout.Outcome.{Exc, client_error, Outcome, ok, raise, exit}
use outbox_fanout.Db.{World, Query, ticked, pure, throw, kill, ◌>>=◌, ◌>>◌}
use outbox_fanout.Json.{Fields, entry, empty_object, str, obj, of_option}
use outbox_fanout.Formats.{Formats}
use outbox_fanout.Tables.{OutboxEvent, Tables}
use outbox_fanout.Config.{Config}

pub data Reply (A : Type 0) : Type 0 where
  accepted : A → Reply A
  refused : Exc → Reply A

-- `lost`: SNS took the message, and the caller got an exception for an answer.
pub data Delivery : Type 0 where
  acknowledged : String → Delivery
  lost : Exc → Delivery
  rejected : Exc → Delivery

-- A message as SNS takes it: the body, and the event_type attribute.
pub record Message : Type 0 where
  pub topic : String
  pub body : String
  pub event_type : Option String

pub record Sns : Type 0 where
  pub create_topic : ℕ → String → Reply String
  pub publish : ℕ → Message → Delivery

pub record Publisher : Type 0 where
  pub topic_arn : Option String
  pub sent : List Message

abbrev pub RelayQuery : Type 0 → Type 0
RelayQuery A = Query Tables Publisher A

abbrev cached : Option String → World Tables Publisher → World Tables Publisher
cached arn w = record w { process = record w.process { topic_arn = arn } }

abbrev took : Message → World Tables Publisher → World Tables Publisher
took m w = record w { process = record w.process { sent = m ∷ w.process.sent } }

module _ (f : Formats) where
  -- build_message
  unfoldable pub build_message : OutboxEvent → Fields
  build_message event = entry "event_id" (str (f.uuid_text event.id)) (
      entry "event_type" (of_option event.event_type) (
        entry "order_id" (str (f.uuid_text event.order_id)) (
          entry "occurred_at" (str (f.isoformat event.created_at))
            (entry "payload" (obj event.payload) empty_object))))

  abbrev pub body_of : OutboxEvent → String
  body_of event = f.dumps (obj (build_message event))

  abbrev pub message_of : String → OutboxEvent → Message
  message_of arn event = record { topic = arn; body = body_of event; event_type = event.event_type }

module _ (sns : Sns) (c : Config) where
  -- topic_arn
  unfoldable pub topic_arn : RelayQuery String
  topic_arn t w = elim w.process.topic_arn [
    | some arn ↦ (ok arn, t, w)
    | none ↦ elim (sns.create_topic w.tick c.sns_topic_name) [
      | accepted arn ↦ (ok arn, t, cached (some arn) (ticked w))
      | refused e ↦ (raise e, t, ticked w)
    ]
  ]

-- forget_topic_arn
unfoldable pub forget_topic_arn : RelayQuery Unit
forget_topic_arn t w = (ok tt, t, cached none w)

-- `exc.response.get("Error", {}).get("Code", "")`
abbrev pub code_of : Option String → String
code_of none = ""
code_of (some code) = code

-- `except ClientError`: a stale ARN is forgotten, and the exception goes on.
unfoldable pub on_client_error : Outcome String → RelayQuery String
unfolding forget_topic_arn
on_client_error (ok id) = pure id
on_client_error (raise (client_error code)) =
    if contains (code_of code) "NotFound"
    then forget_topic_arn >> throw (client_error code)
    else throw (client_error code)
on_client_error (raise e) = throw e
on_client_error (exit n) = kill n

module _ (f : Formats) (sns : Sns) (c : Config) where
  -- `aws.sns().publish(...)`
  unfoldable pub send : OutboxEvent → String → RelayQuery String
  send event arn t w = elim (sns.publish w.tick (message_of f arn event)) [
    | acknowledged id ↦ (ok id, t, took (message_of f arn event) (ticked w))
    | lost e ↦ (raise e, t, took (message_of f arn event) (ticked w))
    | rejected e ↦ (raise e, t, ticked w)
  ]

  unfoldable pub try_publish : OutboxEvent → RelayQuery String
  unfolding topic_arn send
  try_publish event = do arn ← topic_arn sns c; send event arn

  -- publish
  unfoldable pub publish : OutboxEvent → RelayQuery String
  unfolding try_publish on_client_error
  publish event t w = let (o, t', w') = try_publish event t w in on_client_error o t' w'
