-- ===== src/Order/Middleware.antt =====
-- order/main.py: correlation_middleware.
-- FastAPI's Request and Response are what the middleware reads and sets of them. The application
-- behind it is a parameter, and so are the clock and the format of its readings.
use outbox_fanout.Prelude.{
  ℕ, suc, String, Bool, Option, some, List, [], ◌∷◌, any, str_eq, if◌then◌else◌,
}
use outbox_fanout.Outcome.{Outcome, ok, raise, exit}
use outbox_fanout.Log.{Logging, Io, emit, info, error, correlation_scope}

pub record HttpRequest : Type 0 where
  pub method : String
  pub path : String
  -- the header X-Request-ID
  pub request_id : Option String

pub record HttpResponse : Type 0 where
  pub status_code : ℕ
  pub body : String
  -- the header X-Request-ID
  pub request_id : Option String

pub record Clock : Type 0 where
  -- time.perf_counter
  pub perf_counter : ℕ → ℕ
  -- the milliseconds between two readings, as "%.1f" writes them
  pub elapsed : ℕ → ℕ → String
  -- `%s` of a status
  pub status_text : ℕ → String

abbrev pub Application : Type 0
Application = HttpRequest → Logging → Outcome HttpResponse × Logging

-- _QUIET_PATHS
abbrev pub quiet_paths : List String
quiet_paths = "/health" ∷ "/docs" ∷ "/openapi.json" ∷ "/favicon.ico" ∷ []

abbrev pub is_quiet : HttpRequest → Bool
is_quiet r = any (str_eq r.path) quiet_paths

-- Reading the clock.
abbrev pub ticked : Logging → Logging
ticked s = record s { tick = suc s.tick }

module _ (clock : Clock) (request : HttpRequest) where
  -- req_log
  abbrev log : ℕ → List String → Logging → Logging
  log level message s = emit ("request" ∷ []) level message s

  unfoldable pub opening : Logging → Logging
  unfolding emit
  opening s =
      let opened = log info ("┌─ %s %s" ∷ request.method ∷ request.path ∷ []) s in
      if is_quiet request then s else opened

  -- What comes behind `call_next`: an exception is logged on every path, and passed on.
  unfoldable pub closing :
      ℕ → String → Outcome HttpResponse × Logging → Outcome HttpResponse × Logging
  unfolding emit
  closing started cid (ok response, s) =
      let elapsed = clock.elapsed started (clock.perf_counter s.tick) in
      let closed =
        log info ("└─ %s in %.1fms" ∷ clock.status_text response.status_code ∷ elapsed ∷ [])
          (ticked s) in
      (
        ok (record response { request_id = some cid }),
        if is_quiet request then ticked s else closed,
      )
  closing started cid (raise e, s) =
      let elapsed = clock.elapsed started (clock.perf_counter s.tick) in
      (raise e, log error ("└─ UNHANDLED after %.1fms" ∷ elapsed ∷ []) (ticked s))
  closing started cid (exit n, s) = (exit n, s)

module _ (io : Io) (clock : Clock) (call_next : Application) (request : HttpRequest) where
  abbrev pub handled : String → Logging → Outcome HttpResponse × Logging
  handled cid s =
      let opened = opening clock request s in
      closing clock request (clock.perf_counter opened.tick) cid (call_next request (ticked opened))

  unfoldable pub correlation_middleware : Logging → Outcome HttpResponse × Logging
  unfolding correlation_scope opening closing
  correlation_middleware s = correlation_scope io request.request_id handled s
