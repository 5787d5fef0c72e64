-- ===== src/Notifications/Main.antt =====
-- notifications/main.py: the probe, whatever it finds, and then the loop.
use outbox_fanout.Prelude.{ℕ, ◌+◌, String, Bool}
use outbox_fanout.Formats.{Formats}
use outbox_fanout.Config.{Config}
use outbox_fanout.Consumer.{Sqs, Shutdown, Loop, Step, run}
use outbox_fanout.Notifications.{Redis, Notifier, probe, handle}
use outbox_fanout.Notifications.Laws.{IsLasting}
use outbox_fanout.Notifications.Once.{IsAtMostOnce, run-IsAtMostOnce}

-- _PING_ATTEMPTS
abbrev pub ping_attempts : ℕ
ping_attempts = 5

module _ {S : Type 0} (f : Formats) (redis : Redis S) (sqs : Sqs) (stop : Shutdown)
    (c : Config) where
  -- main of notifications/main.py. Nothing depends on whether the probe reached Redis.
  unfoldable pub main : ℕ → Step (Notifier S)
  main rounds l =
      let (_, pings) = probe redis ping_attempts l.world.tick in
      run f sqs (handle f redis c) stop c.notify_queue_name rounds
        (record l { world = record l.world { tick = l.world.tick + pings } })

  -- The Notifications process emails no order twice while no Redis key expires, whether its probe
  -- reaches Redis or not, whatever SQS delivers and however often, whatever Redis answers, and whenever
  -- the process stops or dies, if no order had two emails at the start and the keys of those with one
  -- lived.
  pub notify_main-IsAtMostOnce :
      (live : String → S → Bool) (rounds : ℕ) (l : Loop (Notifier S))
      → IsLasting redis live
      → IsAtMostOnce live l.world
      → IsAtMostOnce live (main rounds l).1.world
  unfolding main
  notify_main-IsAtMostOnce live rounds l lasting h =
      run-IsAtMostOnce f redis c live lasting sqs stop c.notify_queue_name rounds _
        (record { once = h.once; held = h.held })
