-- ===== src/Bootstrap/Repeated.antt =====
-- Running the bootstrap again.
use outbox_fanout.Prelude.{ℕ, ◌≡◌, sym, subst, ◌∙◌, String, []}
use outbox_fanout.Prelude.Predicates.{All}
use outbox_fanout.Outcome.{ok}
use outbox_fanout.Formats.{Formats}
use outbox_fanout.Config.{Config}
use outbox_fanout.Cloud.{Request, Service, Progress, run}
use outbox_fanout.Cloud.Rerun.{IsClashless, IsIdempotent, InEffect, run-again, run-InEffect}
use outbox_fanout.Bootstrap.{main}
use outbox_fanout.Bootstrap.Shape.{main-IsOrderly}

module _ {S : Type 0} (f : Formats) (c : Config) (service : Service S)
    (in_effect : Request → String → S → Type 0) (law : IsIdempotent service in_effect) where
  -- Running the bootstrap a second time changes nothing, also where a call of the second run fails: if
  -- a first run ended with an exit code, none of its requests overwrote an earlier one with another
  -- value, and SNS and SQS keep what they document of these calls, a run from the state that the first
  -- one left leaves that state.
  pub main-main :
      (w v : Progress S) (code : ℕ)
      → w.made ≡ []
      → (run service (main f c) w).0 ≡ ok code
      → IsClashless (run service (main f c) w).1.made
      → v.state ≡ (run service (main f c) w).1.state
      → (run service (main f c) v).1.state ≡ (run service (main f c) w).1.state
  main-main w v code none_made returned clashless from =
      run-again service in_effect law (main f c) w v code (main-IsOrderly f c) returned (
        subst (λ s. All (InEffect service in_effect law s) (run service (main f c) w).1.made)
          (sym from)
          (run-InEffect service in_effect law (main f c) w code returned clashless
            (subst (All (InEffect service in_effect law w.state)) (sym none_made) tt)))
      ∙ from
