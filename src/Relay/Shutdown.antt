-- ===== src/Relay/Shutdown.antt =====
-- The shutdown of the relay's loop (relay/main.py).
use outbox_fanout.Prelude.{
  ℕ, zero, suc, ◌+◌, ◌<◌, Bool, true, false, ◌≡◌, refl, subst, ◌∙◌, arith, if_true, if_false,
}
use outbox_fanout.Outcome.{Outcome, ok, raise, exit}
use outbox_fanout.Db.{World, Database, Action}
use outbox_fanout.Formats.{Formats}
use outbox_fanout.Tables.{Tables}
use outbox_fanout.Config.{Config}
use outbox_fanout.Host.{Host}
use outbox_fanout.Relay.Publisher.{Sns, Publisher}
use outbox_fanout.Relay.Main.{after_poll, poll_loop, loop}

module _ (f : Formats) (db : Database) (sns : Sns) (host : Host) (c : Config)
    (stop : ℕ → Bool) where
  after_poll-same :
      (o : Outcome (ℕ × ℕ)) (p q : Action Tables Publisher Unit) (w : World Tables Publisher)
      → ((w : World Tables Publisher) → p w ≡ q w)
      → after_poll f db sns host c o p w ≡ after_poll f db sns host c o q w
  after_poll-same (ok counts) p q w h = h w
  after_poll-same (raise e) p q w h = h w
  after_poll-same (exit code) p q w h = refl

  -- If the event is seen set before the poll behind `polls` others, and not before, then these polls
  -- are made, each to its end, and no other, however much fuel beyond that is given: the loop ends.
  pub loop-poll_loop :
      (polls k fuel : ℕ) (w : World Tables Publisher)
      → ((n : ℕ) → n < polls → stop (k + n) ≡ false)
      → stop (k + polls) ≡ true
      → polls < fuel
      → loop f db sns host c stop k fuel w ≡ poll_loop f db sns host c polls w
  unfolding loop poll_loop
  loop-poll_loop polls k zero w running stopped enough = absurd (omega (arith, enough))
  loop-poll_loop zero k (suc fuel) w running stopped enough =
      if_true (stop k) _ _ (subst (λ n. stop n ≡ true) (omega arith) stopped)
  loop-poll_loop (suc polls) k (suc fuel) w running stopped enough =
      if_false (stop k) _ _ (subst (λ n. stop n ≡ false) (omega arith) (running 0 (omega arith)))
      ∙ after_poll-same _ (loop f db sns host c stop (suc k) fuel) (poll_loop f db sns host c polls)
          _
          (λ w'.
            loop-poll_loop polls (suc k) fuel w'
              (λ n less.
                subst (λ m. stop m ≡ false) (omega arith) (running (suc n) (omega (arith, less))))
              (subst (λ m. stop m ≡ true) (omega arith) stopped) (omega (arith, enough)))
