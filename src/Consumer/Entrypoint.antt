-- ===== src/Consumer/Entrypoint.antt =====
-- The common part of billing/main.py and shipping/main.py: the tables, then the loop.
use outbox_fanout.Prelude.{ℕ, String, ◌≡◌, sym, subst, arith}
use outbox_fanout.Outcome.{Outcome, ok, raise, exit}
use outbox_fanout.Db.{World, Database, create_all}
use outbox_fanout.Json.{Value}
use outbox_fanout.Formats.{Formats}
use outbox_fanout.Consumer.{Sqs, Shutdown, Loop, Handler, Step, run}
use outbox_fanout.Consumer.Runs.{run-world}

module _ {D P : Type 0} (f : Formats) (db : Database) (sqs : Sqs) (handler : Handler (World D P))
    (stop : Shutdown) (queue_name : String) where
  abbrev pub after_create : ℕ → Outcome (Unit {0}) → Step (World D P)
  after_create rounds (ok _) l = run f sqs handler stop queue_name rounds l
  after_create rounds (raise e) l = (raise e, l)
  after_create rounds (exit code) l = (exit code, l)

  -- create_all, and then at most so many rounds of the loop. An exception of create_all ends the
  -- process.
  unfoldable pub consume_with_tables : ℕ → Step (World D P)
  unfolding create_all
  consume_with_tables rounds l =
      let (o, w) = create_all db l.world in after_create rounds o (record l { world = w })

  create_all-tables : (w : World D P) → (create_all db w).1.tables ≡ w.tables
  unfolding create_all
  create_all-tables w = ground arith

  module _ (Q : D → Type 0)
      (step : (event : Value) (w : World D P) → Q w.tables → Q (handler event w).1.tables) where
    after_create-world :
        (rounds : ℕ) (o : Outcome (Unit {0})) (l : Loop (World D P))
        → Q l.world.tables
        → Q (after_create rounds o l).1.world.tables
    after_create-world rounds (ok _) l h =
        run-world f sqs handler stop queue_name (λ w. Q w.tables) step rounds l h
    after_create-world rounds (raise e) l h = h
    after_create-world rounds (exit code) l h = h

    -- What each call of the handler keeps of the tables, the process keeps.
    pub consume_with_tables-world :
        (rounds : ℕ) (l : Loop (World D P))
        → Q l.world.tables
        → Q (consume_with_tables rounds l).1.world.tables
    unfolding consume_with_tables
    consume_with_tables-world rounds l h =
        after_create-world rounds _ _ (subst Q (sym (create_all-tables l.world)) h)
