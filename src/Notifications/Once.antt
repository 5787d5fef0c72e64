-- ===== src/Notifications/Once.antt =====
-- At most one email for an order, over any number of deliveries.
use outbox_fanout.Prelude.{ℕ, String, Bool, true, false, ◌≡◌, ◌≢◌, ap, List, arith}
use outbox_fanout.Prelude.Predicates.{All, All-map}
use outbox_fanout.Prelude.Distinct.{Distinct}
use outbox_fanout.Outcome.{Outcome}
use outbox_fanout.Json.{Value}
use outbox_fanout.Formats.{Formats}
use outbox_fanout.Config.{Config}
use outbox_fanout.Consumer.{Sqs, Shutdown, Loop, run}
use outbox_fanout.Consumer.Runs.{run-world}
use outbox_fanout.Notifications.{Redis, Notifier, key, handle}
use outbox_fanout.Notifications.Laws.{
  IsLasting, Notified, passive, freed, notified, handle-Notified,
}

-- No order has two emails, and the key of every order with an email lives.
pub record IsAtMostOnce {S : Type 0} (live : String → S → Bool) (w : Notifier S) : Type 0 where
  pub once : Distinct w.sent
  pub held : All (λ order_id. live (key order_id) w.redis ≡ true) w.sent

module _ {S : Type 0} (f : Formats) (redis : Redis S) (c : Config) (live : String → S → Bool)
    (lasting : IsLasting redis live) where
  -- An order whose key is free has no email.
  unsent :
      (order_id : String) (s : S) (sent : List String)
      → live (key order_id) s ≡ false
      → All (λ x. live (key x) s ≡ true) sent
      → All (λ x. order_id ≢ x) sent
  unsent order_id s sent free held =
      All-map _ sent (λ x there same. ground (arith, ap key same)) held

  unkeyed :
      (order_id : String) (s : S) (sent : List String)
      → live (key order_id) s ≡ false
      → All (λ x. live (key x) s ≡ true) sent
      → All (λ x. (key x ≢ key order_id) × (live (key x) s ≡ true)) sent
  unkeyed order_id s sent free held =
      All-map _ sent (λ x there. ((λ same. ground arith), there)) held

  Notified-IsAtMostOnce :
      (event : Value) (w w' : Notifier S) (o : Outcome (Unit {0}))
      → Notified f redis c live event w o w'
      → IsAtMostOnce live w
      → IsAtMostOnce live w'
  Notified-IsAtMostOnce event w w' o (passive _ same keeps) h = record {
    once = rw same h.once;
    held = rw same (All-map _ w.sent (λ x there. keeps (key x) there) h.held);
  }
  Notified-IsAtMostOnce event w w' o (freed n e _ _ _ free _ _ same keeps) h = record {
    once = rw same h.once;
    held = rw same (
        All-map _ w.sent (λ x p. keeps (key x) p.0 p.1)
          (unkeyed n.order_id w.redis w.sent free h.held));
  }
  Notified-IsAtMostOnce event w w' o (notified n _ _ free there _ more keeps) h = record {
    once = rw more (unsent n.order_id w.redis w.sent free h.held, h.once);
    held = rw more (there, All-map _ w.sent (λ x p. keeps (key x) p) h.held);
  }

  -- The Notifications consumer emails no order twice while no Redis key expires, whatever SQS delivers
  -- and however often, whatever Redis answers, and whenever the process stops or dies, if no order had
  -- two emails at the start and the keys of those with one lived.
  pub run-IsAtMostOnce :
      (sqs : Sqs) (stop : Shutdown) (queue_name : String) (rounds : ℕ) (l : Loop (Notifier S))
      → IsAtMostOnce live l.world
      → IsAtMostOnce live (run f sqs (handle f redis c) stop queue_name rounds l).1.world
  run-IsAtMostOnce sqs stop queue_name rounds l h =
      run-world f sqs (handle f redis c) stop queue_name (IsAtMostOnce live)
        (λ event w k.
          Notified-IsAtMostOnce event w _ _ (handle-Notified f redis c live lasting event w) k)
        rounds l h
