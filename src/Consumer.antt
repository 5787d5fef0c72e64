-- ===== src/Consumer.antt =====
-- shared/consumer.py: the receive, handle, delete loop of every consumer.
-- SQS is a service outside the repository: a parameter that answers each call as it likes. The
-- handler is a parameter too, over a state of its own. `finished` and `deleted` record, the newest
-- first, the receipt handles of the messages whose handler returned and of those that SQS deleted.
pub mod Handled
pub mod Runs
pub mod Entrypoint
use outbox_fanout.Prelude.{
  ℕ, zero, suc, String, Bool, true, false, ◌||◌, Option, none, some, List, [], ◌∷◌, contains,
  if◌then◌else◌,
}
use outbox_fanout.Outcome.{
  Exc, client_error, key_error, type_error, json_decode_error, Outcome, ok, raise, exit,
}
use outbox_fanout.Json.{Value, subscript}
use outbox_fanout.Formats.{Formats}
use outbox_fanout.Messages.{unwrap}
use outbox_fanout.Relay.Publisher.{Reply, accepted, refused, code_of}

-- One message of a `receive_message` response. `body` is absent where the key is.
pub record SqsMessage : Type 0 where
  pub body : Option String
  pub receipt_handle : String

pub record Sqs : Type 0 where
  pub get_queue_url : ℕ → String → Reply String
  pub receive_message : ℕ → String → Reply (List SqsMessage)
  -- the exception that delete_message answers with, if any
  pub delete_fault : ℕ → Option Exc

-- Whether the shutdown event is set when the n-th call has been made.
abbrev pub Shutdown : Type 0
Shutdown = ℕ → Bool

pub record Loop (W : Type 0) : Type 0 where
  pub world : W
  pub queue_url : Option String
  pub finished : List String
  pub deleted : List String
  pub tick : ℕ

abbrev pub Handler : Type 0 → Type 0
Handler W = Value → W → Outcome (Unit {0}) × W

abbrev pub Step : Type 0 → Type 0
Step W = Loop W → Outcome (Unit {0}) × Loop W

abbrev pub called : {W : Type 0} → Loop W → Loop W
called l = record l { tick = suc l.tick }

module _ (f : Formats) where
  abbrev body_event : Option String → Outcome Value
  body_event none = raise key_error
  body_event (some body) = unwrap f body

  abbrev with_event_id : Outcome Value → Outcome Value
  with_event_id (ok event) = elim (subscript event "event_id") [
    | ok _ ↦ ok event
    | raise e ↦ raise e
    | exit code ↦ exit code
  ]
  with_event_id o = o

  -- the `try` block of `_handle_one`: the event, if its body parses and it has an event_id
  unfoldable pub parse_event : SqsMessage → Outcome Value
  parse_event m = with_event_id (body_event m.body)

-- `except (json.JSONDecodeError, KeyError, TypeError)`
unfoldable pub is_poison : Exc → Bool
is_poison json_decode_error = true
is_poison key_error = true
is_poison type_error = true
is_poison _ = false

module _ {W : Type 0} (f : Formats) (sqs : Sqs) (handler : Handler W) where
  -- `delete_message`
  unfoldable pub delete : String → Step W
  delete receipt l = elim (sqs.delete_fault l.tick) [
    | none ↦ (ok tt, record (called l) { deleted = receipt ∷ l.deleted })
    | some e ↦ (raise e, called l)
  ]

  abbrev pub after_handler : SqsMessage → Outcome (Unit {0}) → Step W
  after_handler m (ok _) l =
      delete m.receipt_handle (record l { finished = m.receipt_handle ∷ l.finished })
  after_handler m (raise e) l = (raise e, l)
  after_handler m (exit code) l = (exit code, l)

  abbrev pub after_parse : SqsMessage → Outcome Value → Step W
  after_parse m (ok event) l =
      let (o, w') = handler event l.world in after_handler m o (record l { world = w' })
  after_parse m (raise e) l = if is_poison e then (ok tt, l) else (raise e, l)
  after_parse m (exit code) l = (exit code, l)

  -- _handle_one
  unfoldable pub handle_one : SqsMessage → Step W
  unfolding delete
  handle_one m l = after_parse m (parse_event f m) l

  module _ (stop : Shutdown) (queue_name : String) where
    -- the next message of a batch, once `_handle_one` has ended: its exceptions are swallowed
    abbrev pub after_message : Step W → Outcome (Unit {0}) → Step W
    after_message next (ok _) l = next l
    after_message next (raise e) l = next l
    after_message next (exit code) l = (exit code, l)

    -- the `for` loop of `run`
    unfoldable pub handle_batch : List SqsMessage → Step W
    handle_batch [] l = (ok tt, l)
    handle_batch (m ∷ ms) l =
        let next = handle_batch ms in
        let (o, l') = handle_one m (called l) in
        if stop l.tick then (ok tt, l) else after_message next o l'

    -- `except ClientError`: the URL of a queue that is gone is dropped.
    abbrev pub on_receive_error : Exc → Loop W → Loop W
    on_receive_error (client_error code) l = record l {
      queue_url = if contains (code_of code) "NonExistentQueue" then none else l.queue_url;
    }
    on_receive_error e l = l

    abbrev pub after_receive : Reply (List SqsMessage) → Step W
    after_receive (accepted batch) l = handle_batch batch l
    after_receive (refused e) l = (ok tt, on_receive_error e l)

    -- one poll at a known URL
    unfoldable pub receive_at : String → Step W
    receive_at url l = after_receive (sqs.receive_message l.tick url) (called l)

    abbrev pub after_resolve : Reply String → Step W
    after_resolve (accepted url) l = receive_at url (record l { queue_url = some url })
    after_resolve (refused e) l = (ok tt, on_receive_error e l)

    abbrev pub with_url : Option String → Step W
    with_url (some url) l = receive_at url l
    with_url none l = after_resolve (sqs.get_queue_url l.tick queue_name) (called l)

    -- one round of the `while` loop of `run`
    unfoldable pub round : Step W
    round l = with_url l.queue_url l

    -- run, for at most so many rounds
    unfoldable pub run : ℕ → Step W
    run zero l = (ok tt, l)
    run (suc rounds) l =
        let next = run rounds in
        let (o, l') = round l in if stop l.tick then (ok tt, l) else after_message next o l'
