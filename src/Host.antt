-- ===== src/Host.antt =====
-- What a process reads from its host: the clock (`datetime.now`), `uuid.uuid4`, and `str` of an
-- exception. Readings are looked up by the number of external calls made before.
use outbox_fanout.Prelude.{ℕ, String}
use outbox_fanout.Outcome.{Exc}
use outbox_fanout.Formats.{Uuid, Timestamp}

pub record Host : Type 0 where
  pub now : ℕ → Timestamp
  pub uuid4 : ℕ → Uuid
  -- f"{type(exc).__name__}: {exc}"
  pub describe : Exc → String
