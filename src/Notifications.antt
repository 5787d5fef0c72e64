-- ===== src/Notifications.antt =====
-- notifications/service.py: one email for an order at most, with Redis as the arbiter, and the probe of
-- notifications/main.py.
-- Redis is a service outside the repository: a parameter that answers each call as it likes, over a
-- state of its own. The process's state has the orders that an email was sent for, the newest first.
pub mod Laws
pub mod Once
pub mod Expiry
pub mod Probe
pub mod Main
use Prim.Native.String.{◌++◌ as append}
use outbox_fanout.Prelude.{
  ℕ, zero, suc, String, Bool, true, false, Option, none, some, List, ◌∷◌, ◌+◌, if◌then◌else◌,
}
use outbox_fanout.Outcome.{Exc, Outcome, ok, raise, exit}
use outbox_fanout.Json.{Value, subscript}
use outbox_fanout.Formats.{Formats}
use outbox_fanout.Config.{Config}
use outbox_fanout.Relay.Publisher.{Reply, accepted, refused}
use outbox_fanout.Claims.{◌>>=◌}

-- The calls are looked up by the number of calls made before.
pub record Redis (S : Type 0) : Type 0 where
  -- SET key value NX EX seconds: whether this call set the key
  pub set_nx_ex : ℕ → String → Value → ℕ → S → Reply Bool × S
  -- the exception that GET answers with, if any
  pub get_fault : ℕ → Option Exc
  -- DEL key
  pub delete : ℕ → String → S → Option Exc × S
  -- the exception that PING answers with, if any
  pub ping_fault : ℕ → Option Exc

pub record Notifier (S : Type 0) : Type 0 where
  pub redis : S
  pub sent : List String
  pub tick : ℕ

abbrev pub crash_exit_code : ℕ
crash_exit_code = 19

abbrev pub Step : Type 0 → Type 0
Step S = Notifier S → Outcome (Unit {0}) × Notifier S

-- _key
unfoldable pub key : String → String
key order_id = append "notify:processed:" order_id

-- The arguments of the log call that stands in for the email.
unfoldable pub email_args : Value → Outcome (Unit {0})
email_args payload = do
  customer_id ← subscript payload "customer_id"
  item ← subscript payload "item"
  amount ← subscript payload "amount"
  ok tt

module _ {S : Type 0} where
  abbrev pub emailed : String → Notifier S → Notifier S
  emailed order_id w = record w { sent = order_id ∷ w.sent }

  abbrev pub emailed_if : String → Outcome (Unit {0}) → Step S
  emailed_if order_id (ok _) w = (ok tt, emailed order_id w)
  emailed_if order_id (raise e) w = (raise e, w)
  emailed_if order_id (exit code) w = (exit code, w)

  -- _send_notification
  unfoldable pub send_notification : String → Value → Step S
  send_notification order_id payload w = emailed_if order_id (email_args payload) w

-- What `handle` reads before it claims: the payload, the order_id in the text of the key, and the
-- value to store.
pub record Notice : Type 0 where
  pub payload : Value
  pub order_id : String
  pub event_id : Value

module _ (f : Formats) where
  unfoldable pub notice_of_event : Value → Outcome Notice
  notice_of_event event = do
    payload ← subscript event "payload"
    order_id ← subscript payload "order_id"
    event_id ← subscript event "event_id"
    ok (record { payload = payload; order_id = f.str_of order_id; event_id = event_id })

  module _ {S : Type 0} (redis : Redis S) (c : Config) where
    abbrev pub got : Option Exc → Outcome (Unit {0})
    got none = ok tt
    got (some e) = raise e

    -- Somebody holds the claim: read who, for the log.
    unfoldable pub duplicate : Step S
    duplicate w = (got (redis.get_fault w.tick), record w { tick = suc w.tick })

    abbrev pub released : Exc → Option Exc → Outcome (Unit {0})
    released e none = raise e
    released e (some e') = raise e'

    -- The `except` block around the send. A failure of the DEL takes the place of the exception.
    unfoldable pub release : String → Exc → Step S
    release order_id e w =
        let (reply, s) = redis.delete w.tick (key order_id) w.redis in
        (released e reply, record w { redis = s; tick = suc w.tick })

    abbrev pub after_send : String → Outcome (Unit {0}) → Step S
    after_send order_id (ok _) w = (ok tt, w)
    after_send order_id (raise e) w = release order_id e w
    after_send order_id (exit code) w = (exit code, w)

    unfoldable pub send_or_release : String → Value → Step S
    send_or_release order_id payload w =
        let (o, w') = send_notification order_id payload w in after_send order_id o w'

    -- The claim is ours: die in the gap, if the fault injection says so, or send.
    unfoldable pub claimed : Notice → Step S
    claimed n w =
        if c.crash_after_mark
        then (exit crash_exit_code, w)
        else send_or_release n.order_id n.payload w

    abbrev pub after_set : Notice → Reply Bool → Step S
    after_set n (accepted true) w = claimed n w
    after_set n (accepted false) w = duplicate w
    after_set n (refused e) w = (raise e, w)

    unfoldable pub notify : Notice → Step S
    notify n w =
        let (reply, s) =
          redis.set_nx_ex w.tick (key n.order_id) n.event_id c.notify_dedup_ttl_seconds w.redis in
        after_set n reply (record w { redis = s; tick = suc w.tick })

    abbrev pub after_notice : Outcome Notice → Step S
    after_notice (ok n) w = notify n w
    after_notice (raise e) w = (raise e, w)
    after_notice (exit code) w = (exit code, w)

    -- handle
    unfoldable pub handle : Value → Step S
    handle event w = after_notice (notice_of_event event) w

module _ {S : Type 0} (redis : Redis S) where
  -- the `for` loop of `_probe_redis`, with the attempts that are left and the calls made before:
  -- whether Redis was reached, and the pings made
  unfoldable pub probe : ℕ → ℕ → Bool × ℕ
  probe zero tick = (false, 0)
  probe (suc attempts) tick =
      let (reached, pings) = probe attempts (suc tick) in
      elim (redis.ping_fault tick) [ none ↦ (true, 1) | some e ↦ (reached, suc pings) ]
