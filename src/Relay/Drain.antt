-- ===== src/Relay/Drain.antt =====
-- A relay whose database answers and that does not crash empties the outbox: head-of-line blocking
-- does not happen, whatever SNS answers.
use outbox_fanout.Prelude.{
  ℕ, zero, suc, ◌*◌, ◌≤◌, ◌<◌, true, false, ◌≡◌, ◌≢◌, refl, sym, ◌⊎◌, inl, inr, List, [], ◌∷◌,
  arith, select, length, Bool-cases, is_none,
}
use mathlib.Core.List.{nil≢cons}
use native.Mathlib.Decide.{dec_lt}
use outbox_fanout.Prelude.Predicates.{All}
use outbox_fanout.Prelude.Distinct.{Distinct}
use outbox_fanout.Outcome.{Outcome, ok, raise, exit}
use outbox_fanout.Db.{World, Database, Action}
use outbox_fanout.Formats.{Formats}
use outbox_fanout.Tables.{OutboxEvent, Tables}
use outbox_fanout.Config.{Config}
use outbox_fanout.Host.{Host}
use outbox_fanout.Relay.Publisher.{Sns, Publisher}
use outbox_fanout.Relay.Service.{is_pending, relay_batch}
use outbox_fanout.Relay.Main.{poll_loop, after_poll}
use outbox_fanout.Relay.Induction.{relay_batch-Holds}
use outbox_fanout.Relay.Safety.{ids}
use outbox_fanout.Relay.Budget.{budget-stable, none_pending, budget-le}
use outbox_fanout.Relay.Served.{IsServed, left}
use outbox_fanout.Relay.Progress.{relay_batch-lt, relay_batch-keys}
use outbox_fanout.Relay.Alive.{relay_batch-ne-exit}

-- A row that the relay is done with.
abbrev pub IsSettled : Config → OutboxEvent → Type 0
IsSettled c e =
    (e.published ≡ true) ⊎ ((is_none e.failed_at ≡ false) ⊎ (c.outbox_max_attempts ≤ e.attempts))

settled :
    (c : Config) (es : List OutboxEvent)
    → select (is_pending c.outbox_max_attempts) es ≡ []
    → All (IsSettled c) es
settled c [] h = tt
settled c (e ∷ es) h = elim (Bool-cases (is_pending c.outbox_max_attempts e)) [
  | inl due ↦ absurd (nil≢cons (sym (rw due at h)))
  | inr done ↦ (ground arith, settled c es (rw done at h))
]

module _ (f : Formats) (db : Database) (sns : Sns) (host : Host) (c : Config) where
  module _ (served : IsServed db c) where
    -- So every poll is followed by the next.
    after_poll-next :
        (o : Outcome (ℕ × ℕ)) (next : Action Tables Publisher Unit) (w : World Tables Publisher)
        → ((code : ℕ) → o ≢ exit code)
        → after_poll f db sns host c o next w ≡ next w
    after_poll-next (ok counts) next w h = refl
    after_poll-next (raise x) next w h = refl
    after_poll-next (exit code) next w h = absurd (h code refl)

    left-poll_loop :
        (polls : ℕ) (w : World Tables Publisher)
        → Distinct (ids w.tables.outbox)
        → left c w.tables ≤ polls
        → left c (poll_loop f db sns host c polls w).1.tables ≡ 0
    unfolding poll_loop
    left-poll_loop zero w keys h = omega arith
    left-poll_loop (suc polls) w keys h =
        rw (after_poll-next _ _ _ (λ code. relay_batch-ne-exit f db sns host c served code w)) (
          left-poll_loop polls (relay_batch f db sns host c w).1
            (relay_batch-keys f db sns host c served w keys) (fewer (dec_lt 0 (left c w.tables))))
      where
        fewer : Dec (0 < left c w.tables) → left c (relay_batch f db sns host c w).1.tables ≤ polls
        fewer (yes some_left) =
            omega (arith, relay_batch-lt f db sns host c served w keys some_left)
        fewer (no none_left) = omega (
          arith,
          relay_batch-Holds f db sns host c (λ t sent. left c t ≤ 0)
              (budget-stable c.outbox_max_attempts f 0) w (omega arith),
        )

  -- Where the database answers, no row is locked, no crash is injected, a batch has room and the keys
  -- of the outbox are distinct, as many polls as the rows have attempts together leave no row to
  -- publish: each is published, parked, or out of attempts, whatever SNS answered. No row, however
  -- poisoned, holds up another.
  pub poll_loop-IsSettled :
      (polls : ℕ) (w : World Tables Publisher)
      → IsServed db c
      → Distinct (ids w.tables.outbox)
      → c.outbox_max_attempts * length w.tables.outbox ≤ polls
      → All (IsSettled c) (poll_loop f db sns host c polls w).1.tables.outbox
  poll_loop-IsSettled polls w served keys enough = settled c _ (
      none_pending c.outbox_max_attempts _ (
        left-poll_loop served polls w keys
          (omega (arith, budget-le c.outbox_max_attempts w.tables.outbox))))
