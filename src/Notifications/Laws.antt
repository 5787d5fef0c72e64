-- ===== src/Notifications/Laws.antt =====
-- What the Notifications consumer promises while its Redis keys live.
use outbox_fanout.Prelude.{
  ℕ, suc, String, Bool, true, false, ◌≡◌, ◌≢◌, refl, Option, ◌∷◌, arith, if◌then◌else◌,
}
use outbox_fanout.Outcome.{Exc, Outcome, ok, raise, exit}
use outbox_fanout.Json.{Value}
use outbox_fanout.Formats.{Formats}
use outbox_fanout.Config.{Config}
use outbox_fanout.Relay.Publisher.{Reply, accepted, refused}
use outbox_fanout.Notifications.{
  Redis, Notifier, Notice, crash_exit_code, key, email_args, send_notification, release,
  send_or_release, claimed, duplicate, notify, notice_of_event, handle, got, released,
}

-- Redis as its documentation has it, while no key expires. SET NX answers True only if the key was
-- absent, and it is there afterwards. Otherwise, where SET answers at all, the key was there. A
-- refused SET may have set the key. DEL may fail, and takes no other key away.
pub record IsLasting {S : Type 0} (redis : Redis S) (live : String → S → Bool) : Type 0 where
  pub set-fresh :
      (n : ℕ) (k : String) (v : Value) (ttl : ℕ) (s : S)
      → (redis.set_nx_ex n k v ttl s).0 ≡ accepted true
      → (live k s ≡ false) × (live k (redis.set_nx_ex n k v ttl s).1 ≡ true)
  pub set-keeps :
      (n : ℕ) (k : String) (v : Value) (ttl : ℕ) (s : S) (j : String)
      → live j s ≡ true
      → live j (redis.set_nx_ex n k v ttl s).1 ≡ true
  pub delete-keeps :
      (n : ℕ) (k : String) (s : S) (j : String)
      → j ≢ k
      → live j s ≡ true
      → live j (redis.delete n k s).1 ≡ true

email_args-ne-exit : (payload : Value) (code : ℕ) → email_args payload ≢ exit code
unfolding email_args outbox_fanout.Json.subscript
email_args-ne-exit payload code h = ground arith

notice_of_event-ne-exit :
    (f : Formats) (event : Value) (code : ℕ) → notice_of_event f event ≢ exit code
unfolding notice_of_event outbox_fanout.Json.subscript
notice_of_event-ne-exit f event code h = ground arith

-- The answer of Redis to the claim of a notice.
abbrev pub claim_reply : {S : Type 0} → Redis S → Config → Notice → Notifier S → Reply Bool
claim_reply redis c n w =
    (redis.set_nx_ex w.tick (key n.order_id) n.event_id c.notify_dedup_ttl_seconds w.redis).0

-- The DEL of the key of a notice, behind its claim.
abbrev pub withdrawal : {S : Type 0} → Redis S → Config → Notice → Notifier S → Option Exc × S
withdrawal redis c n w =
    redis.delete (suc w.tick) (key n.order_id)
      (redis.set_nx_ex w.tick (key n.order_id) n.event_id c.notify_dedup_ttl_seconds w.redis).1

-- Why a call sends no email and leaves every key alone that lived. `unread`: the event lacks what the
-- claim needs. `unanswered`: Redis refused the claim. `duplicated`: somebody else has the claim.
-- `crashed`: the process died behind its claim, whose key lives on.
pub data Quiet {S : Type 0} (f : Formats) (redis : Redis S) (c : Config) (live : String → S → Bool)
    (event : Value) (w : Notifier S) (o : Outcome (Unit {0})) (w' : Notifier S) : Type 0 where
  unread :
      (e : Exc)
      → notice_of_event f event ≡ raise e
      → o ≡ raise e
      → Quiet f redis c live event w o w'
  unanswered :
      (n : Notice) (e : Exc)
      → notice_of_event f event ≡ ok n
      → claim_reply redis c n w ≡ refused e
      → o ≡ raise e
      → Quiet f redis c live event w o w'
  duplicated :
      (n : Notice)
      → notice_of_event f event ≡ ok n
      → claim_reply redis c n w ≡ accepted false
      → o ≡ got f redis c (redis.get_fault (suc w.tick))
      → Quiet f redis c live event w o w'
  crashed :
      (n : Notice)
      → notice_of_event f event ≡ ok n
      → claim_reply redis c n w ≡ accepted true
      → c.crash_after_mark ≡ true
      → live (key n.order_id) w'.redis ≡ true
      → o ≡ exit crash_exit_code
      → Quiet f redis c live event w o w'

-- `passive`: no email, and every key that lived still does. `freed`: the send failed, no email, and
-- DEL was called on the key that this call set, behind which the exception is that of the send, or that
-- of the DEL where Redis refused it. `notified`: one email, for the order of the event, whose key this
-- call set.
pub data Notified {S : Type 0} (f : Formats) (redis : Redis S) (c : Config)
    (live : String → S → Bool) (event : Value) (w : Notifier S) (o : Outcome (Unit {0}))
    (w' : Notifier S) : Type 0 where
  passive :
      Quiet f redis c live event w o w'
      → w'.sent ≡ w.sent
      → ((j : String) → live j w.redis ≡ true → live j w'.redis ≡ true)
      → Notified f redis c live event w o w'
  freed :
      (n : Notice) (failure : Exc)
      → notice_of_event f event ≡ ok n
      → claim_reply redis c n w ≡ accepted true
      → email_args n.payload ≡ raise failure
      → live (key n.order_id) w.redis ≡ false
      → o ≡ released f redis c failure (withdrawal redis c n w).0
      → w'.redis ≡ (withdrawal redis c n w).1
      → w'.sent ≡ w.sent
      → ((j : String) → j ≢ key n.order_id → live j w.redis ≡ true → live j w'.redis ≡ true)
      → Notified f redis c live event w o w'
  notified :
      (n : Notice)
      → notice_of_event f event ≡ ok n
      → claim_reply redis c n w ≡ accepted true
      → live (key n.order_id) w.redis ≡ false
      → live (key n.order_id) w'.redis ≡ true
      → o ≡ ok tt
      → w'.sent ≡ n.order_id ∷ w.sent
      → ((j : String) → live j w.redis ≡ true → live j w'.redis ≡ true)
      → Notified f redis c live event w o w'

module _ {S : Type 0} (f : Formats) (redis : Redis S) (c : Config) (live : String → S → Bool)
    (lasting : IsLasting redis live) where
  module _ (event : Value) (w : Notifier S) where
    module _ (n : Notice) (named : notice_of_event f event ≡ ok n) where
      abbrev set : Reply Bool × S
      set = redis.set_nx_ex w.tick (key n.order_id) n.event_id c.notify_dedup_ttl_seconds w.redis

      abbrev kept : (j : String) → live j w.redis ≡ true → live j set.1 ≡ true
      kept = lasting.set-keeps w.tick (key n.order_id) n.event_id c.notify_dedup_ttl_seconds w.redis

      abbrev marked : Notifier S
      marked = record w { redis = set.1; tick = suc w.tick }

      module _ (ours : set.0 ≡ accepted true) where
        abbrev fresh :
            (live (key n.order_id) w.redis ≡ false) × (live (key n.order_id) set.1 ≡ true)
        fresh =
            lasting.set-fresh w.tick (key n.order_id) n.event_id c.notify_dedup_ttl_seconds w.redis
              ours

        deleted :
            (failure : Exc)
            → email_args n.payload ≡ raise failure
            → Notified f redis c live event w
                (release f redis c n.order_id failure marked).0
                (release f redis c n.order_id failure marked).1
        unfolding release
        deleted failure bad = freed n failure named ours bad fresh.0 refl refl refl (λ j other h.
            lasting.delete-keeps marked.tick (key n.order_id) set.1 j other (kept j h))

        sending :
            (o : Outcome (Unit {0}))
            → email_args n.payload ≡ o
            → Notified f redis c live event w
                (send_or_release f redis c n.order_id n.payload marked).0
                (send_or_release f redis c n.order_id n.payload marked).1
        unfolding send_or_release send_notification
        sending (ok _) p = rw p (notified n named ours fresh.0 fresh.1 refl refl kept)
        sending (raise e) p = rw p (deleted e p)
        sending (exit code) p = absurd (email_args-ne-exit n.payload code p)

        flagged :
            (b : Bool)
            → c.crash_after_mark ≡ b
            → Notified f redis c live event w
                (if b
                  then (exit crash_exit_code, marked)
                  else send_or_release f redis c n.order_id n.payload marked).0
                (if b
                  then (exit crash_exit_code, marked)
                  else send_or_release f redis c n.order_id n.payload marked).1
        flagged true p = passive (crashed n named ours p fresh.1 refl) refl kept
        flagged false p = sending (email_args n.payload) refl

        claiming :
            Notified f redis c live event w
              (claimed f redis c n marked).0
              (claimed f redis c n marked).1
        unfolding claimed
        claiming = flagged c.crash_after_mark refl

      answered :
          (reply : Reply Bool)
          → set.0 ≡ reply
          → Notified f redis c live event w (notify f redis c n w).0 (notify f redis c n w).1
      unfolding notify duplicate
      answered (accepted true) p = rw p (claiming p)
      answered (accepted false) p = rw p (passive (duplicated n named p refl) refl kept)
      answered (refused e) p = rw p (passive (unanswered n e named p refl) refl kept)

    noticed :
        (o : Outcome Notice)
        → notice_of_event f event ≡ o
        → Notified f redis c live event w (handle f redis c event w).0 (handle f redis c event w).1
    unfolding handle
    noticed (ok n) p = rw p (answered n p _ refl)
    noticed (raise e) p = rw p (passive (unread e p refl) refl (λ j h. h))
    noticed (exit code) p = absurd (notice_of_event-ne-exit f event code p)

    -- Every branch of Notifications' `handle`, whatever the event holds and Redis answers, while no
    -- key expires: no email for one of four reasons; no email after a failed send, behind which the
    -- key of this claim is deleted and the exception goes on; or one email under a key that this call
    -- set.
    pub handle-Notified :
        Notified f redis c live event w (handle f redis c event w).0 (handle f redis c event w).1
    handle-Notified = noticed (notice_of_event f event) refl

    -- While the key of its order lives, an event sends no email, whichever event set the key, and
    -- also if the process died between the claim and the email.
    pub handle-silent :
        (n : Notice)
        → notice_of_event f event ≡ ok n
        → live (key n.order_id) w.redis ≡ true
        → (handle f redis c event w).1.sent ≡ w.sent
    handle-silent n named there = elim handle-Notified [
      | passive _ same _ ↦ same
      | freed n' e named' _ _ free _ _ same _ ↦ same
      | notified n' named' _ free _ _ more _ ↦ absurd (ground arith)
    ]

module _ {S : Type 0} (f : Formats) (redis : Redis S) (c : Config) (event : Value) (w : Notifier S)
    (n : Notice) where
  -- An event whose claim Redis grants, and which has all that the email tells, is answered with one
  -- email for its order, where no crash is injected.
  pub handle-emails :
      notice_of_event f event ≡ ok n
      → claim_reply redis c n w ≡ accepted true
      → email_args n.payload ≡ ok tt
      → c.crash_after_mark ≡ false
      → ((handle f redis c event w).0 ≡ ok tt)
        × ((handle f redis c event w).1.sent ≡ n.order_id ∷ w.sent)
  unfolding handle notify claimed send_or_release send_notification
  handle-emails named ours full on = ground arith
