-- ===== src/Db/Laws.antt =====
-- What a session's transaction leaves behind.
use outbox_fanout.Prelude.{◌≡◌, Option, none, some, arith}
use outbox_fanout.Outcome.{Exc, Outcome, ok, raise, exit}
use outbox_fanout.Db.{World, Database, Query, session_scope}

module _ {D P A : Type 0} (db : Database) (block : Query D P A) (w : World D P) where
  abbrev pub ended : Outcome A × D × World D P
  ended = block w.tables w

  -- How a session ends, by the server's answer to the commit and the outcome of the block.
  abbrev pub scope_outcome : Option Exc → Outcome A → Outcome A
  scope_outcome none o = o
  scope_outcome (some e) (ok a) = raise e
  scope_outcome (some e) o = o

  abbrev pub tables_of : Outcome A → D
  tables_of (ok a) = ended.1
  tables_of (raise e) = w.tables
  tables_of (exit code) = w.tables

  -- A block's writes are all committed or all discarded, if the block itself commits nothing.
  -- `session_scope` raises the refusal of the commit where the block returned, and else ends as the
  -- block did. If it returns, the session's tables are the tables; after an exception or the death of
  -- the process the tables are what they were.
  pub session_scope_lem :
      ended.2.tables ≡ w.tables
      → ((session_scope db block w).0 ≡ scope_outcome (db.fault ended.2.tick) ended.0)
        × ((session_scope db block w).1.tables ≡ tables_of (session_scope db block w).0)
  unfolding session_scope
  session_scope_lem kept = ground arith
