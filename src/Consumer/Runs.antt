-- ===== src/Consumer/Runs.antt =====
-- Invariants of the consumer loop over any number of polls.
use outbox_fanout.Prelude.{
  ℕ, zero, suc, String, Bool, true, false, refl, inl, inr, Option, none, some, List, [], ◌∷◌,
  if◌then◌else◌,
}
use outbox_fanout.Prelude.Predicates.{All, In, All-map}
use outbox_fanout.Outcome.{Exc, client_error, Outcome, ok, raise, exit}
use outbox_fanout.Json.{Value}
use outbox_fanout.Formats.{Formats}
use outbox_fanout.Relay.Publisher.{Reply, accepted, refused}
use outbox_fanout.Consumer.{
  SqsMessage, Sqs, Shutdown, Loop, Handler, Step, called, after_message, handle_batch,
  on_receive_error, after_receive, receive_at, after_resolve, with_url, round, run,
}
use outbox_fanout.Consumer.Handled.{
  Handled, poisoned, broken, failed, died, undeleted, deleted, handle_one-Handled,
}

module _ {W : Type 0} (f : Formats) (sqs : Sqs) (handler : Handler W) (stop : Shutdown)
    (queue_name : String) where
  -- A property of what the loop has done, kept by each message.
  module _ (P : W → List String → List String → Type 0)
      (keep : (m : SqsMessage) (l l' : Loop W) (o : Outcome (Unit {0}))
        → Handled f handler m l o l'
        → P l.world l.finished l.deleted
        → P l'.world l'.finished l'.deleted) where
    abbrev Holds : Loop W → Type 0
    Holds l = P l.world l.finished l.deleted

    after_message-Holds :
        (next : Step W) (o : Outcome (Unit {0})) (l : Loop W)
        → ((k : Loop W) → Holds k → Holds (next k).1)
        → Holds l
        → Holds (after_message f sqs handler stop queue_name next o l).1
    after_message-Holds next (ok _) l rest h = rest l h
    after_message-Holds next (raise e) l rest h = rest l h
    after_message-Holds next (exit code) l rest h = h

    stopping :
        (b : Bool) (l : Loop W) (step : Outcome (Unit {0}) × Loop W)
        → Holds l
        → Holds step.1
        → Holds (if b then (ok tt, l) else step).1
    stopping true l step h k = h
    stopping false l step h k = k

    handle_batch-Holds :
        (ms : List SqsMessage) (l : Loop W)
        → Holds l
        → Holds (handle_batch f sqs handler stop queue_name ms l).1
    unfolding handle_batch
    handle_batch-Holds [] l h = h
    handle_batch-Holds (m ∷ ms) l h = stopping (stop l.tick) l _ h (
        after_message-Holds _ _ _ (handle_batch-Holds ms)
          (keep m (called l) _ _ (handle_one-Handled f sqs handler m (called l)) h))

    on_receive_error-Holds :
        (e : Exc) (l : Loop W)
        → Holds l
        → Holds (on_receive_error f sqs handler stop queue_name e l)
    on_receive_error-Holds (client_error code) l h = h
    on_receive_error-Holds _ l h = h

    after_receive-Holds :
        (r : Reply (List SqsMessage)) (l : Loop W)
        → Holds l
        → Holds (after_receive f sqs handler stop queue_name r l).1
    after_receive-Holds (accepted batch) l h = handle_batch-Holds batch l h
    after_receive-Holds (refused e) l h = on_receive_error-Holds e l h

    receive_at-Holds :
        (url : String) (l : Loop W)
        → Holds l
        → Holds (receive_at f sqs handler stop queue_name url l).1
    unfolding receive_at
    receive_at-Holds url l h = after_receive-Holds (sqs.receive_message l.tick url) (called l) h

    with_url-Holds :
        (url : Option String) (l : Loop W)
        → Holds l
        → Holds (with_url f sqs handler stop queue_name url l).1
    with_url-Holds (some url) l h = receive_at-Holds url l h
    with_url-Holds none l h = after_resolve-Holds (sqs.get_queue_url l.tick queue_name)
      where
        after_resolve-Holds :
            (r : Reply String) → Holds (after_resolve f sqs handler stop queue_name r (called l)).1
        after_resolve-Holds (accepted url) =
            receive_at-Holds url (record (called l) { queue_url = some url }) h
        after_resolve-Holds (refused e) = on_receive_error-Holds e (called l) h

    pub run-Holds :
        (rounds : ℕ) (l : Loop W) → Holds l → Holds (run f sqs handler stop queue_name rounds l).1
    unfolding run round
    run-Holds zero l h = h
    run-Holds (suc rounds) l h =
        stopping (stop l.tick) l _ h
          (after_message-Holds _ _ _ (run-Holds rounds) (with_url-Holds l.queue_url l h))

  -- Only messages whose handler returned are ever deleted, whatever SQS answers and whenever the
  -- process is stopped or dies: if all deleted receipts were of finished messages at the start, they
  -- are after any number of polls.
  pub run-deleted :
      (rounds : ℕ) (l : Loop W)
      → All (λ r. In r l.finished) l.deleted
      → All
          (λ r. In r (run f sqs handler stop queue_name rounds l).1.finished)
          (run f sqs handler stop queue_name rounds l).1.deleted
  run-deleted rounds l h =
      run-Holds (λ w finished gone. All (λ r. In r finished) gone) keep rounds l h
    where
      keep :
          (m : SqsMessage) (l l' : Loop W) (o : Outcome (Unit {0}))
          → Handled f handler m l o l'
          → All (λ r. In r l.finished) l.deleted
          → All (λ r. In r l'.finished) l'.deleted
      keep m l l' o (poisoned e _ _ _ s) h = rw s h
      keep m l l' o (broken e _ _ s) h = rw s h
      keep m l l' o (failed event e _ _ _ s) h = rw s h
      keep m l l' o (died event code _ _ _ s) h = rw s h
      keep m l l' o (undeleted event e _ _ _ _ n d) h =
          rw (n, d) (All-map _ l.deleted (λ r k. inr k) h)
      keep m l l' o (deleted event _ _ _ _ n d) h =
          rw (n, d) (inl refl, All-map _ l.deleted (λ r k. inr k) h)

  -- What each call of the handler keeps of its state, every run of the loop keeps.
  pub run-world :
      (Q : W → Type 0)
      → ((event : Value) (w : W) → Q w → Q (handler event w).1)
      → (rounds : ℕ) (l : Loop W) → Q l.world
      → Q (run f sqs handler stop queue_name rounds l).1.world
  run-world Q step rounds l h = run-Holds (λ w finished gone. Q w) keep rounds l h
    where
      keep :
          (m : SqsMessage) (l l' : Loop W) (o : Outcome (Unit {0}))
          → Handled f handler m l o l'
          → Q l.world
          → Q l'.world
      keep m l l' o (poisoned e _ _ _ s) h = rw s h
      keep m l l' o (broken e _ _ s) h = rw s h
      keep m l l' o (failed event e _ _ _ s) h = rw s (step event l.world h)
      keep m l l' o (died event code _ _ _ s) h = rw s (step event l.world h)
      keep m l l' o (undeleted event e _ _ _ s _ _) h = rw s (step event l.world h)
      keep m l l' o (deleted event _ _ _ s _ _) h = rw s (step event l.world h)
