-- ===== src/Relay/Induction.antt =====
-- Invariants of the relay, proved once for each kind of write and then for every run.
use mathlib.Core.Path.{subst₂}
use outbox_fanout.Prelude.{
  ℕ, zero, suc, ◌+◌, String, Bool, true, false, ◌≡◌, sym, ap, List, [], ◌∷◌, arith, ◌≤◌, leb, chars,
  chars-truncate-le,
}
use outbox_fanout.Outcome.{Exc, Outcome, ok, raise, exit}
use outbox_fanout.Db.{World, Database, Action}
use outbox_fanout.Formats.{Formats, Uuid, Timestamp}
use outbox_fanout.Tables.{OutboxEvent, Tables}
use outbox_fanout.Config.{Config}
use outbox_fanout.Host.{Host}
use outbox_fanout.Relay.Publisher.{Sns, Publisher, Message, message_of, topic_arn}
use outbox_fanout.Relay.Service.{
  update_row, marked, bumped, parked, relay_one, record_failure, after_recorded, on_failure,
  after_one, relay_next, relay_ids, read_batch, after_read, relay_batch, is_permanent,
}
use outbox_fanout.Relay.Main.{after_poll, poll_loop, main}
use outbox_fanout.Relay.Effects.{Claims, Relayed, untouched, unmarked, published, relay_one-Relayed}
use outbox_fanout.Relay.FailureEffect.{
  returned, Recorded, kept, counted, gave_up, record_failure-Recorded, record_failure-process,
}

-- `P` relates the tables to the messages that SNS took, and each kind of write keeps it. A row that is
-- counted and not parked has an attempt left of the `max`.
pub record Stable (f : Formats) (max : ℕ) (P : Tables → List Message → Type 0) : Type 0 where
  pub sends :
      (id : Uuid) (event : OutboxEvent) (arn : String) (t : Tables) (sent : List Message)
      → Claims id event t
      → P t sent
      → P t (message_of f arn event ∷ sent)
  pub marks :
      (id : Uuid) (event : OutboxEvent) (arn : String) (at : Timestamp) (t : Tables)
      (sent : List Message)
      → Claims id event t
      → P t sent
      → P (update_row id (marked at) t) (message_of f arn event ∷ sent)
  pub bumps :
      (id : Uuid) (reason : String) (t : Tables) (sent : List Message)
      → chars reason ≤ 500
      → (n : ℕ) × (returned id reason t ≡ ok n) × (leb max n ≡ false)
      → P t sent
      → P (update_row id (bumped reason) t) sent
  pub gives_up :
      (id : Uuid) (reason : String) (at : Timestamp) (t : Tables) (sent : List Message)
      → chars reason ≤ 500
      → P t sent
      → P (update_row id (parked at) (update_row id (bumped reason) t)) sent

module _ (f : Formats) (db : Database) (sns : Sns) (host : Host) (c : Config) where
  module _ (P : Tables → List Message → Type 0) (stable : Stable f c.outbox_max_attempts P) where
    abbrev pub Holds : World Tables Publisher → Type 0
    Holds w = P w.tables w.process.sent

    Relayed-Holds :
        {id : Uuid} {w w' : World Tables Publisher} {o : Outcome Bool}
        → Relayed f db c id w o w'
        → Holds w
        → Holds w'
    Relayed-Holds (untouched _ t s) h = subst₂ P (sym t) (sym s) h
    Relayed-Holds {id} {w} (unmarked event arn claims _ t s) h =
        subst₂ P (sym t) (sym s) (stable.sends id event arn w.tables w.process.sent claims h)
    Relayed-Holds {id} {w} (published event arn at claims _ t s) h =
        subst₂ P (sym t) (sym s) (stable.marks id event arn at w.tables w.process.sent claims h)

    Recorded-Holds :
        {id : Uuid} {reason : String} {permanent : Bool} {w w' : World Tables Publisher}
        {o : Outcome ℕ}
        → Recorded db c id reason permanent w o w'
        → chars reason ≤ 500
        → w'.process ≡ w.process
        → Holds w
        → Holds w'
    Recorded-Holds (kept e _ _ t) short same h = subst₂ P (sym t) (ap (λ p. p.sent) (sym same)) h
    Recorded-Holds {id} {reason} {permanent} {w} (counted n _ r left t) short same h =
        subst₂ P (sym t) (ap (λ p. p.sent) (sym same))
          (stable.bumps id reason w.tables w.process.sent short (n, r, ground arith) h)
    Recorded-Holds {id} {reason} {permanent} {w} (gave_up n at _ _ _ t) short same h =
        subst₂ P (sym t) (ap (λ p. p.sent) (sym same))
          (stable.gives_up id reason at w.tables w.process.sent short h)

    pub relay_one-Holds :
        (id : Uuid) (w : World Tables Publisher)
        → Holds w
        → Holds (relay_one f db sns host c id w).1
    relay_one-Holds id w h = Relayed-Holds (relay_one-Relayed f db sns host c id w) h

    pub record_failure-Holds :
        (id : Uuid) (e : Exc) (permanent : Bool) (w : World Tables Publisher)
        → Holds w
        → Holds (record_failure db host c id e permanent w).1
    record_failure-Holds id e permanent w h =
        Recorded-Holds (record_failure-Recorded db host c id e permanent w)
          (chars-truncate-le 500 (host.describe e))
          (record_failure-process db host c id e permanent w) h

    -- The read of a batch writes nothing.
    read_batch-Holds :
        (w : World Tables Publisher) → Holds w → Holds (read_batch f db sns host c w).1
    unfolding read_batch
    read_batch-Holds w h = ground arith

    module _ (id : Uuid) (n : ℕ) (next : ℕ → Action Tables Publisher ℕ)
        (rest : (k : ℕ) (w : World Tables Publisher) → Holds w → Holds (next k w).1) where
      after_recorded-Holds :
          (permanent : Bool) (o : Outcome ℕ) (w : World Tables Publisher)
          → Holds w
          → Holds (after_recorded f db sns host c permanent o n next w).1
      after_recorded-Holds true (ok k) w h = rest n w h
      after_recorded-Holds false (ok k) w h = h
      after_recorded-Holds permanent (raise e) w h = h
      after_recorded-Holds permanent (exit code) w h = h

      on_failure-Holds :
          (e : Exc) (w : World Tables Publisher)
          → Holds w
          → Holds (on_failure f db sns host c id e n next w).1
      unfolding on_failure
      on_failure-Holds e w h =
          after_recorded-Holds (is_permanent e) _ _ (record_failure-Holds id e (is_permanent e) w h)

      after_one-Holds :
          (o : Outcome Bool) (w : World Tables Publisher)
          → Holds w
          → Holds (after_one f db sns host c id o n next w).1
      after_one-Holds (ok true) w h = rest (n + 1) w h
      after_one-Holds (ok false) w h = rest n w h
      after_one-Holds (raise e) w h = on_failure-Holds e w h
      after_one-Holds (exit code) w h = h

      relay_next-Holds :
          (w : World Tables Publisher) → Holds w → Holds (relay_next f db sns host c id n next w).1
      unfolding relay_next
      relay_next-Holds w h = after_one-Holds _ _ (relay_one-Holds id w h)

    pub relay_ids-Holds :
        (ids : List Uuid) (n : ℕ) (w : World Tables Publisher)
        → Holds w
        → Holds (relay_ids f db sns host c ids n w).1
    unfolding relay_ids
    relay_ids-Holds [] n w h = h
    relay_ids-Holds (id ∷ ids) n w h = relay_next-Holds id n _ (λ k. relay_ids-Holds ids k) w h

    after_read-Holds :
        (o : Outcome (List Uuid)) (w : World Tables Publisher)
        → Holds w
        → Holds (after_read f db sns host c o w).1
    after_read-Holds (ok ids) w h = relay_ids-Holds ids 0 w h
    after_read-Holds (raise e) w h = h
    after_read-Holds (exit code) w h = h

    pub relay_batch-Holds :
        (w : World Tables Publisher) → Holds w → Holds (relay_batch f db sns host c w).1
    unfolding relay_batch
    relay_batch-Holds w h = after_read-Holds _ _ (read_batch-Holds w h)

    after_poll-Holds :
        (o : Outcome (ℕ × ℕ)) (next : Action Tables Publisher Unit)
        → ((w : World Tables Publisher) → Holds w → Holds (next w).1)
        → (w : World Tables Publisher) → Holds w
        → Holds (after_poll f db sns host c o next w).1
    after_poll-Holds (ok counts) next rest w h = rest w h
    after_poll-Holds (raise e) next rest w h = rest w h
    after_poll-Holds (exit code) next rest w h = h

    pub poll_loop-Holds :
        (polls : ℕ) (w : World Tables Publisher)
        → Holds w
        → Holds (poll_loop f db sns host c polls w).1
    unfolding poll_loop
    poll_loop-Holds zero w h = h
    poll_loop-Holds (suc polls) w h =
        after_poll-Holds _ _ (poll_loop-Holds polls) _ (relay_batch-Holds w h)

    -- Whatever the database and SNS answer, and wherever the process dies, a run keeps `P`.
    pub main-Holds :
        (polls : ℕ) (w : World Tables Publisher) → Holds w → Holds (main f db sns host c polls w).1
    unfolding main topic_arn
    main-Holds polls w h = poll_loop-Holds polls _ (ground arith)
