-- ===== src/Log/Setup.antt =====
-- shared/log.py: _build_file_handler and setup.
use outbox_fanout.Prelude.{
  ℕ, suc, String, Bool, true, Option, none, some, List, [], ◌∷◌, ◌++◌, str_eq, if◌then◌else◌,
}
use outbox_fanout.Log.{Name, Handler, console, file, Logging, Io, emit, modify, info, warning}

-- The settings of shared/config.py that set up logging.
pub record LogConfig : Type 0 where
  pub log_level : String
  pub log_to_file : Bool
  pub log_dir : String

-- `getattr(logging, LOG_LEVEL, logging.INFO)` for the names of levels
abbrev pub level_of : String → ℕ
level_of s =
    if str_eq s "CRITICAL"
    then 50
    else if str_eq s "FATAL"
    then 50
    else if str_eq s "ERROR"
    then 40
    else if str_eq s "WARNING"
    then 30
    else if str_eq s "WARN"
    then 30
    else if str_eq s "DEBUG"
    then 10
    else if str_eq s "NOTSET"
    then 0
    else info

-- `for noisy in (...)`
abbrev pub noisy_names : List Name
noisy_names = ("botocore" ∷ []) ∷ ("boto3" ∷ []) ∷ ("urllib3" ∷ []) ∷ ("s3transfer" ∷ []) ∷ []

-- `for uvicorn_logger in (...)`
abbrev pub uvicorn_names : List Name
uvicorn_names = ("uvicorn" ∷ []) ∷ ("error" ∷ "uvicorn" ∷ []) ∷ []

abbrev pub add_handler : Option Handler → Logging → Logging
add_handler none s = s
add_handler (some h) s = record s {
  loggers = modify [] (λ l. record l { handlers = l.handlers ++ (h ∷ []) }) s.loggers;
}

abbrev pub set_level : Name → ℕ → Logging → Logging
set_level name level s = record s {
  loggers = modify name (λ l. record l { level = some level }) s.loggers;
}

-- `lg.handlers.clear()` and `lg.propagate = True`
abbrev pub route_through_ours : Name → Logging → Logging
route_through_ours name s = record s {
  loggers = modify name (λ l. record l { handlers = []; propagate = true }) s.loggers;
}

abbrev pub quiet_all : List Name → Logging → Logging
quiet_all [] s = s
quiet_all (name ∷ names) s = quiet_all names (set_level name warning s)

abbrev pub route_all : List Name → Logging → Logging
route_all [] s = s
route_all (name ∷ names) s = route_all names (route_through_ours name s)

module _ (io : Io) (c : LogConfig) where
  -- _build_file_handler: `none` where the filesystem refuses
  unfoldable pub build_file_handler : String → Logging → Option Handler × Logging
  build_file_handler service s =
      if io.opens s.tick service
      then (some (file c.log_dir service), record s { tick = suc s.tick })
      else (none, record s { stderr = service ∷ s.stderr; tick = suc s.tick })

  abbrev pub file_logging : String → Logging → Option Handler × Logging
  file_logging service s = if c.log_to_file then build_file_handler service s else (none, s)

  abbrev pub announce : Option Handler → String → Logging → Logging
  announce none service s = emit (service ∷ []) info ("logging to console only" ∷ []) s
  announce (some h) service s =
      emit (service ∷ []) info
        ("logging to console and %s (rotate at %.0f MB, keep %d)" ∷ c.log_dir ∷ service ∷ []) s

  abbrev pub clear_root : Logging → Logging
  clear_root s = record s {
    loggers =
        modify [] (λ l. record l { level = some (level_of c.log_level); handlers = [] }) s.loggers;
  }

  -- The handlers of the root logger: the console, and the file where it can be opened.
  unfoldable pub install : String → Logging → Option Handler × Logging
  unfolding build_file_handler
  install service s =
      let (handler, tried) =
        file_logging service (add_handler (some (console service)) (clear_root s)) in
      (handler, add_handler handler tried)

  -- setup, where logging is not configured
  unfoldable pub configure : String → Logging → Logging
  unfolding install emit
  configure service s =
      let (handler, added) = install service s in
      announce handler service
        (record (route_all uvicorn_names (quiet_all noisy_names added)) { configured = true })

  -- setup: repeat calls do nothing
  unfoldable pub setup : String → Logging → Logging
  unfolding configure
  setup service s = if s.configured then s else configure service s
