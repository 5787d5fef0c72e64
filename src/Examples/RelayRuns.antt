-- ===== src/Examples/RelayRuns.antt =====
-- The relay on two rows.
use outbox_fanout.Prelude.{leb, Bool, ℕ, true, ◌≡◌, refl, inl, none, List, [], ◌∷◌, map, arith}
use outbox_fanout.Prelude.Predicates.{All}
use outbox_fanout.Outcome.{ok, other_error}
use outbox_fanout.Db.{World, Query, session_scope, statement}
use outbox_fanout.Config.{defaults}
use outbox_fanout.Db.Laws.{scope_outcome, tables_of, session_scope_lem}
use outbox_fanout.Relay.Publisher.{publish}
use outbox_fanout.Relay.Service.{
  relay_one, relay_batch, read_batch, relay_ids, relay_next, pending_event_ids, record_failure,
}
use outbox_fanout.Relay.Main.{poll_loop, main, loop}
use outbox_fanout.Relay.Shutdown.{loop-poll_loop}
use outbox_fanout.Relay.Effects.{Relayed, relay_one-Relayed}
use outbox_fanout.Relay.FailureEffect.{Recorded, record_failure-Recorded}
use outbox_fanout.Relay.Safety.{
  NothingLost, IsConsistent, content, main-NothingLost, main-content, main-IsConsistent,
}
use outbox_fanout.Relay.Drain.{IsSettled, poll_loop-IsSettled}
use outbox_fanout.Examples.Notation.{notation}
use outbox_fanout.Examples.Setting.{calm, host, start, steady, poisoned}

-- One poll publishes both rows.
drain : (relay_batch notation calm steady host defaults start).0 ≡ ok (2, 2)
unfolding relay_batch read_batch relay_ids relay_next relay_one pending_event_ids publish
drain = refl

main-NothingLost_example :
    NothingLost notation
      (main notation calm steady host defaults 3 start).1.tables
      (main notation calm steady host defaults 3 start).1.process.sent
main-NothingLost_example = main-NothingLost notation calm steady host defaults 3 start (record {
  keys = (((λ e. omega (arith, e)), tt), (tt, tt));
  delivered = (inl refl, (inl refl, tt));
})

main-content_example :
    (map content (main notation calm steady host defaults 3 start).1.tables.outbox
      ≡ map content start.tables.outbox)
    × ((main notation calm steady host defaults 3 start).1.tables.orders ≡ start.tables.orders)
main-content_example = main-content notation calm steady host defaults 3 start

main-IsConsistent_example :
    All IsConsistent (main notation calm poisoned host defaults 3 start).1.tables.outbox
main-IsConsistent_example = main-IsConsistent notation calm poisoned host defaults 3 start (
  record { dated = refl; explained = inl refl },
  (record { dated = refl; explained = inl refl }, tt),
)

poll_loop-IsSettled_example :
    All
      (IsSettled defaults)
      (poll_loop notation calm poisoned host defaults 10 start).1.tables.outbox
poll_loop-IsSettled_example =
    poll_loop-IsSettled notation calm poisoned host defaults 10 start
      (record { answers = λ n. refl; free = λ n id. refl; steady = refl; room = omega arith })
      (((λ e. omega (arith, e)), tt), (tt, tt)) (omega arith)

relay_one-Relayed_example :
    Relayed notation calm defaults 1 start
      (relay_one notation calm steady host defaults 1 start).0
      (relay_one notation calm steady host defaults 1 start).1
relay_one-Relayed_example = relay_one-Relayed notation calm steady host defaults 1 start

record_failure-Recorded_example :
    Recorded calm defaults 1 "boom" true start
      (record_failure calm host defaults 1 other_error true start).0
      (record_failure calm host defaults 1 other_error true start).1
record_failure-Recorded_example =
    record_failure-Recorded calm host defaults 1 other_error true start

-- A session that adds a number to a list of numbers.
abbrev numbers : World (List ℕ) (Unit {0})
numbers = record { tables = 4 ∷ []; process = tt; tick = 0 }

abbrev add_three : Query (List ℕ) (Unit {0}) ℕ
add_three = statement calm (λ t. (ok 7, 3 ∷ t))

session_scope_lem_example :
    ((session_scope calm add_three numbers).0 ≡ scope_outcome calm add_three numbers none (ok 7))
    × ((session_scope calm add_three numbers).1.tables
        ≡ tables_of calm add_three numbers (session_scope calm add_three numbers).0)
session_scope_lem_example = session_scope_lem calm add_three numbers refl

-- A signal during the second poll.
abbrev signalled : ℕ → Bool
signalled k = leb 2 k

loop-poll_loop_example :
    loop notation calm steady host defaults signalled 0 50 start
    ≡ poll_loop notation calm steady host defaults 2 start
loop-poll_loop_example =
    loop-poll_loop notation calm steady host defaults signalled 2 0 50 start
      (λ n less. ground (arith, less)) refl (omega arith)
