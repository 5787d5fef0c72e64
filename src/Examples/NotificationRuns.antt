-- ===== src/Examples/NotificationRuns.antt =====
-- Notifications over a Redis that is a list of keys.
use outbox_fanout.Prelude.{
  suc, ◌≤◌, String, Bool, true, false, not, ◌≡◌, ◌≢◌, refl, none, some, List, [], ◌∷◌, any, select,
  arith, str_eq, eq_iff, if◌then◌else◌,
}
use outbox_fanout.Outcome.{ok}
use outbox_fanout.Json.{Value, str, obj, get}
use outbox_fanout.Tables.{OutboxEvent}
use outbox_fanout.Config.{defaults}
use outbox_fanout.Order.Service.{event_of, build_payload}
use outbox_fanout.Relay.Publisher.{accepted, build_message, body_of}
use outbox_fanout.Consumer.{SqsMessage, Sqs, Loop}
use outbox_fanout.Notifications.{Redis, Notifier, Notice, notice_of_event, handle, key}
use outbox_fanout.Notifications.Laws.{IsLasting, Notified, handle-Notified, handle-silent}
use outbox_fanout.Notifications.Once.{IsAtMostOnce}
use outbox_fanout.Notifications.Main.{main, notify_main-IsAtMostOnce}
use outbox_fanout.Notifications.Expiry.{
  Lived, begun, delivered, expired, emails, expiries, emails-le,
}
use outbox_fanout.Examples.Notation.{notation}
use outbox_fanout.Examples.Setting.{order}

abbrev has : String → List String → Bool
has k = any (str_eq k)

abbrev remove : String → List String → List String
remove k = select (λ j. not (str_eq k j))

abbrev pub redis : Redis (List String)
redis = record {
  set_nx_ex =
      λ n k v ttl keys. if has k keys then (accepted false, keys) else (accepted true, k ∷ keys);
  get_fault = λ n. none;
  delete = λ n k keys. (none, remove k keys);
  ping_fault = λ n. none;
}

has-remove :
    (k j : String) (keys : List String) → j ≢ k → has j keys ≡ true → has j (remove k keys) ≡ true
has-remove k j [] other there = there
has-remove k j (x ∷ keys) other there =
    ground (arith, has-remove k j keys other, eq_iff k x, eq_iff j x, eq_iff j k)

lasting : IsLasting redis has
lasting = record {
  set-fresh = λ n k v ttl s ours. ground (arith, eq_iff k k);
  set-keeps = λ n k v ttl s j there. ground arith;
  delete-keeps = λ n k s j other there. has-remove k j s other there;
}

abbrev row : OutboxEvent
row = event_of notation defaults 2 20 order

abbrev event : Value
event = obj (build_message notation row)

abbrev message : SqsMessage
message = record { body = some (body_of notation row); receipt_handle = "r" }

abbrev queue : Sqs
queue = record {
  get_queue_url = λ _ _. accepted "url";
  receive_message = λ _ _. accepted (message ∷ message ∷ []);
  delete_fault = λ _. none;
}

abbrev silent : Notifier (List String)
silent = record { redis = []; sent = []; tick = 0 }

abbrev idle : Loop (Notifier (List String))
idle = record { world = silent; queue_url = none; finished = []; deleted = []; tick = 0 }

handle-Notified_example :
    Notified notation redis defaults has event silent
      (handle notation redis defaults event silent).0
      (handle notation redis defaults event silent).1
handle-Notified_example = handle-Notified notation redis defaults has lasting event silent

abbrev notice : Notice
notice = record {
  payload = obj (build_payload notation order);
  order_id = notation.uuid_text 1;
  event_id = str (notation.uuid_text 2);
}

notice_example : notice_of_event notation event ≡ ok notice
unfolding notice_of_event build_message build_payload get outbox_fanout.Json.subscript
notice_example = rw (notation.str_of-str (notation.uuid_text 1)) refl

-- The key is there and no email went out, as after a crash in the gap.
abbrev crashed : Notifier (List String)
crashed = record silent { redis = key notice.order_id ∷ [] }

held : has (key notice.order_id) crashed.redis ≡ true
held = ground (arith, eq_iff (key notice.order_id) (key notice.order_id))

handle-silent_example : (handle notation redis defaults event crashed).1.sent ≡ []
handle-silent_example =
    handle-silent notation redis defaults has lasting event crashed notice notice_example held

-- An email, the expiry of its key, and another email for a redelivery.
abbrev first_email : Notifier (List String)
first_email = (handle notation redis defaults event silent).1

abbrev forgotten : Notifier (List String)
forgotten = record first_email { redis = remove (key notice.order_id) first_email.redis }

abbrev second_email : Notifier (List String)
second_email = (handle notation redis defaults event forgotten).1

lived : Lived notation redis defaults has silent second_email (key notice.order_id ∷ [])
lived = delivered forgotten _ event (
    expired first_email [] (key notice.order_id) forgotten.redis
      (λ j other there. has-remove (key notice.order_id) j first_email.redis other there)
      (delivered silent [] event begun))

emails-le_example :
    (emails notice.order_id second_email
      ≤ suc (expiries notice.order_id (key notice.order_id ∷ [])))
    × (emails notice.order_id second_email
          ≡ suc (expiries notice.order_id (key notice.order_id ∷ []))
        → has (key notice.order_id) second_email.redis ≡ true)
emails-le_example =
    emails-le notation redis defaults has lasting notice.order_id silent refl second_email
      (key notice.order_id ∷ []) lived

notify_main-IsAtMostOnce_example :
    IsAtMostOnce has (main notation redis queue (λ _. false) defaults 2 idle).1.world
notify_main-IsAtMostOnce_example =
    notify_main-IsAtMostOnce notation redis queue (λ _. false) defaults has 2 idle lasting
      (record { once = tt; held = tt })
