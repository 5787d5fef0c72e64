-- ===== src/Relay/Alive.antt =====
-- No poll kills the process without the fault injection.
use outbox_fanout.Prelude.{ℕ, ◌+◌, String, Bool, true, false, ◌≢◌, inl, inr, List, [], ◌∷◌, arith}
use outbox_fanout.Outcome.{Outcome, ok, raise, exit}
use outbox_fanout.Db.{World, Database, Action}
use outbox_fanout.Formats.{Formats, Uuid}
use outbox_fanout.Tables.{Tables}
use outbox_fanout.Config.{Config}
use outbox_fanout.Host.{Host}
use outbox_fanout.Relay.Publisher.{Sns, Publisher}
use outbox_fanout.Relay.Service.{
  is_permanent, on_failure, after_one, after_recorded, relay_next, relay_ids, after_read,
  relay_batch,
}
use outbox_fanout.Relay.Effects.{Relayed, untouched, unmarked, published, relay_one-Relayed}
use outbox_fanout.Relay.FailureEffect.{Recorded, kept, counted, gave_up, record_failure-Recorded}
use outbox_fanout.Relay.Served.{IsServed}
use outbox_fanout.Relay.Progress.{read_batch-ids}

module _ (f : Formats) (db : Database) (sns : Sns) (host : Host) (c : Config) where
  module _ (served : IsServed db c) where
    -- Without the fault injection no branch of a poll kills the process.
    Relayed-ne-exit :
        {id : Uuid} {w w' : World Tables Publisher} {o : Outcome Bool} (code : ℕ)
        → Relayed f db c id w o w'
        → o ≢ exit code
    Relayed-ne-exit code (untouched (inl (p, _)) _ _) q = ground arith
    Relayed-ne-exit code (untouched (inr (x, p)) _ _) q = ground arith
    Relayed-ne-exit code (unmarked event arn _ (inl (_, crash)) _ _) q =
        absurd (ground (arith, served.steady))
    Relayed-ne-exit code (unmarked event arn _ (inr (x, p)) _ _) q = ground arith
    Relayed-ne-exit code (published event arn at _ p _ _) q = ground arith

    Recorded-ne-exit :
        {id : Uuid} {reason : String} {permanent : Bool} {w w' : World Tables Publisher}
        {o : Outcome ℕ} (code : ℕ)
        → Recorded db c id reason permanent w o w'
        → o ≢ exit code
    Recorded-ne-exit code (kept x p _ _) q = ground arith
    Recorded-ne-exit code (counted n p _ _ _) q = ground arith
    Recorded-ne-exit code (gave_up n at p _ _ _) q = ground arith

    module _ (id : Uuid) (n code : ℕ) (next : ℕ → Action Tables Publisher ℕ)
        (rest : (k : ℕ) (w : World Tables Publisher) → (next k w).0 ≢ exit code) where
      after_recorded-ne-exit :
          (permanent : Bool) (o : Outcome ℕ) (w : World Tables Publisher)
          → o ≢ exit code
          → (after_recorded f db sns host c permanent o n next w).0 ≢ exit code
      after_recorded-ne-exit true (ok k) w h = rest n w
      after_recorded-ne-exit false (ok k) w h = λ q. ground arith
      after_recorded-ne-exit permanent (raise x) w h = λ q. ground arith
      after_recorded-ne-exit permanent (exit k) w h = λ q. h (ground arith)

      after_one-ne-exit :
          (o : Outcome Bool) (w : World Tables Publisher)
          → o ≢ exit code
          → (after_one f db sns host c id o n next w).0 ≢ exit code
      unfolding on_failure
      after_one-ne-exit (ok true) w h = rest (n + 1) w
      after_one-ne-exit (ok false) w h = rest n w
      after_one-ne-exit (raise x) w h =
          after_recorded-ne-exit (is_permanent x) _ _
            (Recorded-ne-exit code (record_failure-Recorded db host c id x (is_permanent x) w))
      after_one-ne-exit (exit k) w h = λ q. h (ground arith)

    relay_ids-ne-exit :
        (es : List Uuid) (n code : ℕ) (w : World Tables Publisher)
        → (relay_ids f db sns host c es n w).0 ≢ exit code
    unfolding relay_ids relay_next
    relay_ids-ne-exit [] n code w = λ q. ground arith
    relay_ids-ne-exit (id ∷ es) n code w =
        after_one-ne-exit id n code _ (λ k. relay_ids-ne-exit es k code) _ _
          (Relayed-ne-exit code (relay_one-Relayed f db sns host c id w))

    after_read-ne-exit :
        (es : List Uuid) (code : ℕ) (w : World Tables Publisher)
        → (after_read f db sns host c (ok es) w).0 ≢ exit code
    after_read-ne-exit es code w = λ q. ground (arith, relay_ids-ne-exit es 0 code w)

    pub relay_batch-ne-exit :
        (code : ℕ) (w : World Tables Publisher) → (relay_batch f db sns host c w).0 ≢ exit code
    unfolding relay_batch
    relay_batch-ne-exit code w =
        rw (read_batch-ids f db sns host c served w) (after_read-ne-exit _ code _)
