-- ===== src/Examples/BootstrapRuns.antt =====
-- The bootstrap against a service that keeps a journal of the requests that have an effect.
use outbox_fanout.Prelude.{
  String, Bool, true, false, ◌≡◌, refl, not, List, [], ◌∷◌, ◌&&◌, any, arith,
}
use outbox_fanout.Prelude.Predicates.{All}
use outbox_fanout.Outcome.{ok}
use outbox_fanout.Relay.Publisher.{accepted}
use outbox_fanout.Config.{defaults}
use outbox_fanout.Cloud.{Request, create_topic, Progress, run}
use outbox_fanout.Cloud.Rerun.{overwrites, IsClashless}
use outbox_fanout.Bootstrap.{main, queue_names}
use outbox_fanout.Bootstrap.Subscribed.{IsSubscribed}
use outbox_fanout.Bootstrap.Redriven.{IsRedriven}
use outbox_fanout.Bootstrap.Checked.{main-passed}
use outbox_fanout.Bootstrap.Repeated.{main-main}
use outbox_fanout.Examples.Notation.{notation}
use outbox_fanout.Examples.Journal.{in_force, reply, service, journal_law}
use outbox_fanout.Examples.Answering.{journal-IsAnswering, journal_room}
use outbox_fanout.Bootstrap.Complete.{started, main_completes}

abbrev empty : Progress (List Request)
empty = record { state = []; made = []; tick = 0 }

-- One run passes every check, on a service that has nothing.
passes : (run service (main notation defaults) empty).0 ≡ ok 0
unfolding run main outbox_fanout.Bootstrap.attributes_for notation
passes = refl

main-passed_example :
    (topic : String) × ((service.apply 0 (create_topic "order-events") []).0 ≡ accepted topic)
    × All
        (IsSubscribed notation defaults service topic
          (run service (main notation defaults) empty).1.state)
        (queue_names defaults)
    × All
        (IsRedriven notation defaults service (run service (main notation defaults) empty).1.state)
        (queue_names defaults)
main-passed_example = main-passed notation defaults service empty passes

abbrev clash_free : List (Request × String) → Bool
clash_free [] = true
clash_free (p ∷ ps) = not (any (λ q. overwrites p.0 q.0) ps) && clash_free ps

apart :
    (r : Request) (ps : List (Request × String))
    → not (any (λ q. overwrites r q.0) ps) ≡ true
    → All (λ q. overwrites r q.0 ≡ false) ps
apart r [] h = tt
apart r (p ∷ ps) h = (ground arith, apart r ps (ground arith))

clash_free-IsClashless : (ps : List (Request × String)) → clash_free ps ≡ true → IsClashless ps
unfolding IsClashless
clash_free-IsClashless [] h = tt
clash_free-IsClashless (p ∷ ps) h =
    (apart p.0 ps (ground arith), clash_free-IsClashless ps (ground arith))

clashless : IsClashless (run service (main notation defaults) empty).1.made
unfolding run main outbox_fanout.Bootstrap.attributes_for notation
clashless = clash_free-IsClashless _ refl

-- A second run whose first request is call number 40.
abbrev second : List Request → Progress (List Request)
second journal = record { state = journal; made = []; tick = 40 }

main-main_example :
    (run service
      (main notation defaults)
      (second (run service (main notation defaults) empty).1.state)).1.state
    ≡ (run service (main notation defaults) empty).1.state
main-main_example =
    main-main notation defaults service (λ r x s. (in_force r s ≡ true) × (x ≡ reply r)) journal_law
      empty (second (run service (main notation defaults) empty).1.state) 0 refl passes clashless
      refl

main_completes_example :
    ((run service (main notation defaults) (started [] 0)).0 ≡ ok 0)
    × ((run service
          (main notation defaults)
          (started (run service (main notation defaults) (started [] 0)).1.state 40)).1.state
        ≡ (run service (main notation defaults) (started [] 0)).1.state)
main_completes_example =
    main_completes notation defaults (λ name. name) (λ name. name) (λ a b p. p) service
      (λ r x s. (in_force r s ≡ true) × (x ≡ reply r)) journal_law journal-IsAnswering [] 0 40
      journal_room
