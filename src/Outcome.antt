-- ===== src/Outcome.antt =====
-- How a Python call ends: it returns, it raises, or the process dies in it.
-- The exceptions are those that the code raises, catches or tells apart, and a residual one.
use outbox_fanout.Prelude.{ℕ, String, Option}

pub data Exc : Type 0 where
  -- botocore's ClientError, with `response["Error"]["Code"]`; `none` where the field is absent
  client_error : Option String → Exc
  key_error : Exc
  type_error : Exc
  value_error : Exc
  json_decode_error : Exc
  invalid_operation : Exc
  -- sqlalchemy.exc.IntegrityError, and the other subclasses of SQLAlchemyError
  integrity_error : Exc
  database_error : Exc
  -- fastapi.HTTPException, with its status
  http_exception : ℕ → Exc
  -- shared/config.py's ConfigError
  config_error : Exc
  -- any other subclass of Exception
  other_error : Exc

-- `exit` is os._exit: no handler, `finally` block or commit runs after it.
pub data Outcome (A : Type 0) : Type 0 where
  ok : A → Outcome A
  raise : Exc → Outcome A
  exit : ℕ → Outcome A
