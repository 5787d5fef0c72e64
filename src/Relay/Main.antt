-- ===== src/Relay/Main.antt =====
-- relay/main.py: the polling loop.
use outbox_fanout.Prelude.{ℕ, zero, suc, Bool, if◌then◌else◌}
use outbox_fanout.Outcome.{Outcome, ok, raise, exit}
use outbox_fanout.Db.{Database, Action}
use outbox_fanout.Formats.{Formats}
use outbox_fanout.Tables.{Tables}
use outbox_fanout.Config.{Config}
use outbox_fanout.Host.{Host}
use outbox_fanout.Relay.Publisher.{Sns, Publisher, topic_arn}
use outbox_fanout.Relay.Service.{relay_batch}

module _ (f : Formats) (db : Database) (sns : Sns) (host : Host) (c : Config) where
  -- An exception ends only its own poll.
  abbrev pub after_poll :
      Outcome (ℕ × ℕ) → Action Tables Publisher Unit → Action Tables Publisher Unit
  after_poll (ok counts) next w = next w
  after_poll (raise e) next w = next w
  after_poll (exit code) next w = (exit code, w)

  -- The polls that are made before the shutdown event is seen.
  unfoldable pub poll_loop : ℕ → Action Tables Publisher Unit
  poll_loop zero w = (ok tt, w)
  poll_loop (suc polls) w =
      let (o, w') = relay_batch f db sns host c w in
      let next = poll_loop polls in after_poll o next w'

  -- main: the topic is resolved first, and a failure of that is not fatal.
  unfoldable pub main : ℕ → Action Tables Publisher Unit
  main polls w = poll_loop polls (topic_arn sns c w.tables w).2

  -- The `while` loop with the shutdown event: `stop k` tells whether it is set when it is looked at for
  -- the k-th time, which is before each poll only. The fuel bounds the polls.
  unfoldable pub loop : (ℕ → Bool) → ℕ → ℕ → Action Tables Publisher Unit
  loop stop k zero w = (ok tt, w)
  loop stop k (suc fuel) w =
      let (o, w') = relay_batch f db sns host c w in
      let next = loop stop (suc k) fuel in if stop k then (ok tt, w) else after_poll o next w'
