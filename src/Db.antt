-- ===== src/Db.antt =====
-- shared/db.py: sessions, the transaction of a session, and who ends it.
-- A process runs over a `World`: the committed tables, its own state, and the number of external
-- calls made so far, by which the outcome of each call is looked up in a `Database` or another
-- service. A `Query` runs inside a session and works on the session's own copy of the tables.
pub mod Laws
use outbox_fanout.Prelude.{ℕ, suc, String, Bool, Option, none, some}
use outbox_fanout.Json.{Value}
use outbox_fanout.Formats.{Decimal}
use outbox_fanout.Outcome.{Exc, Outcome, ok, raise, exit}

pub record World (D P : Type 0) : Type 0 where
  pub tables : D
  pub process : P
  pub tick : ℕ

-- The database server: the exception that it answers its n-th request with, if any. It is not the
-- program's own code, so every behaviour of it is admitted.
pub record Database : Type 0 where
  pub fault : ℕ → Option Exc
  -- whether another transaction holds the lock of the row with this key
  pub locked : ℕ → ℕ → Bool
  -- the text that is stored for a value that is no `str`, unless the driver refuses it
  pub adapt : Value → Option String
  -- what a NUMERIC(12, 2) column stores, unless the number is out of its range
  pub numeric : Decimal → Option Decimal

abbrev pub Action : Type 0 → Type 0 → Type 0 → Type 0
Action D P A = World D P → Outcome A × World D P

-- The outcome, the session's uncommitted tables, and the world beside the session.
abbrev pub Query : Type 0 → Type 0 → Type 0 → Type 0
Query D P A = D → World D P → Outcome A × D × World D P

abbrev pub ticked : {D P : Type 0} → World D P → World D P
ticked w = record w { tick = suc w.tick }

module _ {D P : Type 0} where
  module _ {A : Type 0} where
    abbrev pub pure : A → Query D P A
    pure a d w = (ok a, d, w)

    abbrev pub throw : Exc → Query D P A
    throw e d w = (raise e, d, w)

    -- os._exit(code) inside a session
    abbrev pub kill : ℕ → Query D P A
    kill code d w = (exit code, d, w)

    -- A statement that reads and writes the session's tables, unless the server refuses it.
    abbrev pub statement : Database → (D → Outcome A × D) → Query D P A
    statement db run d w = elim (db.fault w.tick) [
      | none ↦ ((run d).0, (run d).1, ticked w)
      | some e ↦ (raise e, d, ticked w)
    ]

    -- A call that does not touch the session's tables, such as a publish.
    abbrev pub lift : Action D P A → Query D P A
    lift m d w = ((m w).0, d, (m w).1)

  module _ {A B : Type 0} where
    abbrev after_query : Outcome A → D → World D P → (A → Query D P B) → Outcome B × D × World D P
    after_query (ok a) d w f = f a d w
    after_query (raise e) d w f = (raise e, d, w)
    after_query (exit code) d w f = (exit code, d, w)

    infixl 5 ◌>>=◌ ◌>>◌
    abbrev pub ◌>>=◌ : Query D P A → (A → Query D P B) → Query D P B
    ◌>>=◌ m f d w = after_query (m d w).0 (m d w).1 (m d w).2 f

    abbrev pub ◌>>◌ : Query D P A → Query D P B → Query D P B
    m >> n = m >>= λ _. n

  module _ (db : Database) where
    -- `session.commit()`: the server refuses, or the session's tables become the tables.
    unfoldable pub commit : Query D P Unit
    commit d w = elim (db.fault w.tick) [
      | none ↦ (ok tt, d, record w { tables = d; tick = suc w.tick })
      | some e ↦ (raise e, d, ticked w)
    ]

  module _ {A : Type 0} (db : Database) where
    -- The handlers of `session_scope` around the block: a commit on a clean end, a rollback on an
    -- exception. A process that dies runs neither, and the server drops its transaction.
    unfoldable pub end_scope : Outcome A → Query D P A
    unfolding commit
    end_scope (ok a) = commit db >> pure a
    end_scope (raise e) = throw e
    end_scope (exit code) = kill code

    -- session_scope: the block starts from the committed tables
    unfoldable pub session_scope : Query D P A → Action D P A
    unfolding end_scope
    session_scope block w =
        let (o, d, w') = block w.tables w in let (o', _, w'') = end_scope o d w' in (o', w'')

  module _ {A : Type 0} where
    -- get_session: the block commits for itself, and the end of the session only discards
    unfoldable pub get_session : Query D P A → Action D P A
    get_session block w = let (o, _, w') = block w.tables w in (o, w')

module _ {D P : Type 0} where
  -- `Base.metadata.create_all`, which creates missing tables only. A table that is missing is an empty
  -- one here, so nothing changes.
  unfoldable pub create_all : Database → Action D P Unit
  create_all db w = elim (db.fault w.tick) [
    | none ↦ (ok tt, ticked w)
    | some e ↦ (raise e, ticked w)
  ]
