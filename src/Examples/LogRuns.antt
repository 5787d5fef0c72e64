-- ===== src/Examples/LogRuns.antt =====
-- Logging in a process that uvicorn started, and a request in it.
use outbox_fanout.Prelude.{
  true, false, ◌≡◌, ◌≤◌, refl, inl, none, some, [], ◌∷◌, map, if◌then◌else◌, leb→le,
}
use outbox_fanout.Outcome.{ok, raise, value_error}
use outbox_fanout.Log.{
  Name, console, file, foreign, Logger, Logging, Io, same_name, threshold, written, emit, info,
  warning,
}
use outbox_fanout.Log.Setup.{LogConfig, setup}
use outbox_fanout.Log.Once.{setup_all, setup-once}
use outbox_fanout.Log.Scope.{IsTagged, emit-IsTagged}
use outbox_fanout.Order.Middleware.{HttpRequest, Clock, Application, correlation_middleware}
use outbox_fanout.Order.Tracing.{echo, correlation_middleware-IsTagged}

abbrev io : Io
io = record { new_id = λ n. "0badcafe"; opens = λ n service. true }

abbrev config : LogConfig
config = record { log_level = "INFO"; log_to_file = true; log_dir = "logs" }

-- The root logger and uvicorn's have handlers already.
abbrev loggers : Name → Logger
loggers name =
    if same_name name []
    then record { level = some 30; handlers = foreign 0 ∷ []; propagate = true }
    else if same_name name ("uvicorn" ∷ [])
    then record { level = none; handlers = foreign 1 ∷ []; propagate = false }
    else record { level = none; handlers = []; propagate = true }

abbrev started : Logging
started = record {
  configured = false;
  loggers = loggers;
  id = "--------";
  lines = [];
  stderr = [];
  tick = 0;
}

enabled :
    threshold
      (setup_all io config ("order-service" ∷ "order-service" ∷ []) started).loggers
      ("error" ∷ "uvicorn" ∷ [])
    ≤ info
unfolding setup
enabled = leb→le _ _ refl

setup-once_example :
    map
      (λ l. l.handler)
      (written
        ("error" ∷ "uvicorn" ∷ [])
        info
        ("ready" ∷ [])
        (setup_all io config ("order-service" ∷ "order-service" ∷ []) started))
    ≡ console "order-service" ∷ file "logs" "order-service" ∷ []
setup-once_example =
    setup-once io config "order-service" ("order-service" ∷ []) started ("error" ∷ "uvicorn" ∷ [])
      info ("ready" ∷ []) refl (inl refl, (inl refl, tt)) enabled

abbrev clock : Clock
clock = record { perf_counter = λ n. n; elapsed = λ a b. "1.0"; status_text = λ n. "201" }

abbrev request : HttpRequest
request = record { method = "POST"; path = "/orders"; request_id = some "req-1" }

-- An application that logs a warning, and answers or fails.
abbrev answering : Application
answering r s = (
  ok (record { status_code = 201; body = "{}"; request_id = none }),
  emit ("order" ∷ []) warning ("staged" ∷ []) s,
)

abbrev failing : Application
failing r s = (raise value_error, emit ("order" ∷ []) warning ("staged" ∷ []) s)

abbrev ready : Logging
ready = record started { configured = true }

-- The lines of a request that fails, the last one first.
failing_ids :
    map (λ l. l.cid) (correlation_middleware io clock failing request ready).1.lines
    ≡ "req-1" ∷ "req-1" ∷ []
unfolding correlation_middleware
failing_ids = refl

correlation_middleware-IsTagged_example :
    IsTagged "req-1" "--------" [] (correlation_middleware io clock answering request ready)
    × (t : Logging) × (t.id ≡ "req-1")
    × ((correlation_middleware io clock answering request ready).0
        ≡ echo t.id (answering request t).0)
correlation_middleware-IsTagged_example =
    correlation_middleware-IsTagged io clock answering request ready
      (λ t. emit-IsTagged ("order" ∷ []) warning ("staged" ∷ []) _ t)
