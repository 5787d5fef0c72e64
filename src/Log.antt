-- ===== src/Log.antt =====
-- shared/log.py: the loggers of a process, and the correlation id that every line carries.
-- What the code uses of Python's logging: a logger has a level, handlers and whether it propagates; a
-- record is written by the handlers of its logger and, while the loggers propagate, of those above it.
-- A logger's name is the list of its dotted parts, the last part first; the root logger's is empty.
pub mod Setup
pub mod Once
pub mod Scope
use outbox_fanout.Prelude.{
  ℕ, suc, String, Bool, true, false, ◌&&◌, Option, none, some, List, [], ◌∷◌, ◌++◌, map, str_eq,
  leb, if◌then◌else◌,
}
use outbox_fanout.Outcome.{Outcome, ok, raise, exit}

abbrev pub Name : Type 0
Name = List String

-- A handler of shared/log.py has its filter's service; the others are uvicorn's or a library's.
pub data Handler : Type 0 where
  console : String → Handler
  -- the directory, and the service, which names the file
  file : String → String → Handler
  foreign : ℕ → Handler

pub record Logger : Type 0 where
  -- `none` is NOTSET
  pub level : Option ℕ
  pub handlers : List Handler
  pub propagate : Bool

-- A line that a handler wrote: the message is its format and arguments.
pub record Line : Type 0 where
  pub handler : Handler
  -- the id of the thread's context
  pub cid : String
  pub name : Name
  pub level : ℕ
  pub message : List String

-- `id` is _correlation_id, `lines` the lines written so far, the newest first; `stderr` has a warning
-- for each file that could not be opened, and `tick` counts the calls that leave the process.
pub record Logging : Type 0 where
  pub configured : Bool
  pub loggers : Name → Logger
  pub id : String
  pub lines : List Line
  pub stderr : List String
  pub tick : ℕ

-- The host: `uuid.uuid4().hex[:8]`, and whether the directory and the file can be opened.
pub record Io : Type 0 where
  pub new_id : ℕ → String
  pub opens : ℕ → String → Bool

abbrev pub same_name : Name → Name → Bool
same_name [] [] = true
same_name (a ∷ m) (b ∷ n) = str_eq a b && same_name m n
same_name _ _ = false

-- The handlers that a record of this logger reaches.
abbrev pub reached : (Name → Logger) → Name → List Handler
reached loggers [] = (loggers []).handlers
reached loggers (part ∷ parent) =
    let above = reached loggers parent in
    let own = (loggers (part ∷ parent)).handlers in
    if (loggers (part ∷ parent)).propagate then own ++ above else own

abbrev pub or_else : Option ℕ → ℕ → ℕ
or_else none n = n
or_else (some l) n = l

-- The logger's effective level: its own, or that of the next logger above that has one.
abbrev pub threshold : (Name → Logger) → Name → ℕ
threshold loggers [] = or_else (loggers []).level 0
threshold loggers (part ∷ parent) =
    or_else (loggers (part ∷ parent)).level (threshold loggers parent)

abbrev pub line : Logging → Name → ℕ → List String → Handler → Line
line s name level message h = record {
  handler = h;
  cid = s.id;
  name = name;
  level = level;
  message = message;
}

-- The lines of a record: none below the logger's level.
abbrev pub written : Name → ℕ → List String → Logging → List Line
written name level message s =
    if leb (threshold s.loggers name) level
    then map (line s name level message) (reached s.loggers name)
    else []

-- `logger.log(level, message)`. A handler that fails is logging's own affair: it raises nothing.
unfoldable pub emit : Name → ℕ → List String → Logging → Logging
emit name level message s = record s { lines = written name level message s ++ s.lines }

abbrev pub modify : Name → (Logger → Logger) → (Name → Logger) → Name → Logger
modify at f loggers name = if same_name name at then f (loggers name) else loggers name

abbrev pub info : ℕ
info = 20

abbrev pub warning : ℕ
warning = 30

abbrev pub error : ℕ
error = 40

-- correlation_scope: the id of the block is the one given, if it is not empty, or a new one; a return
-- and an exception restore the id from outside.
abbrev pub scope_id : Io → Option String → Logging → String × Logging
scope_id io none s = (io.new_id s.tick, record s { tick = suc s.tick })
scope_id io (some value) s =
    if str_eq value "" then (io.new_id s.tick, record s { tick = suc s.tick }) else (value, s)

module _ {A : Type 0} where
  abbrev pub reset : String → Outcome A × Logging → Outcome A × Logging
  reset outer (ok a, s) = (ok a, record s { id = outer })
  reset outer (raise e, s) = (raise e, record s { id = outer })
  reset outer (exit n, s) = (exit n, s)

  unfoldable pub correlation_scope :
      Io → Option String → (String → Logging → Outcome A × Logging) → Logging → Outcome A × Logging
  correlation_scope io value body s =
      let (cid, entered) = scope_id io value s in
      reset s.id (body cid (record entered { id = cid }))
