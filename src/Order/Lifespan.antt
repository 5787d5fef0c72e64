-- ===== src/Order/Lifespan.antt =====
-- The lifespan of order/main.py: what it logs and does before and behind the requests.
use Prim.Native.Char.{Char, code}
use Prim.Native.String.{◌++◌ as append}
use text.Mathlib.TextLemmas.{nil-append, cons-append}
use outbox_fanout.Prelude.{
  subst, ◌⊎◌, inl, inr, some, Option-cases, String, Bool, true, false, ◌||◌, ◌≡◌, refl, ◌∙◌, ap,
  List, [], ◌∷◌, ◌++◌, ◌==◌, arith, if◌then◌else◌,
}
use outbox_fanout.Outcome.{Exc, Outcome, ok, raise, exit}
use outbox_fanout.Db.{World, Database, ticked, create_all}
use outbox_fanout.Tables.{Tables}
use outbox_fanout.Config.{Config}
use outbox_fanout.Settings.{database_url_of}
use outbox_fanout.Settings.Parsers.{ℤ, Python}

abbrev is_at : Char → Bool
is_at c = code c == code "@"

abbrev has_at : String → Bool
has_at String.[] = false
has_at (String.◌∷◌ c s) = is_at c || has_at s

-- `s.split("@")[-1]`
unfoldable pub after_last_at : String → String
after_last_at String.[] = String.[]
after_last_at (String.◌∷◌ c s) =
    let rest = after_last_at s in if has_at s then rest else if is_at c then s else String.◌∷◌ c s

-- The lines in front of create_all, and behind it.
unfoldable pub opening_lines : String → List String
unfolding after_last_at
opening_lines url = "order service starting" ∷ append "database: " (after_last_at url) ∷ []

unfoldable pub ready_lines : Config → List String
ready_lines c =
    "tables ready: orders, outbox"
    ∷ (if c.break_outbox_insert
        then "BREAK_OUTBOX_INSERT=1 — every POST /orders will fail (atomicity proof)" ∷ []
        else [])

module _ (url : String) (c : Config) (engine : String → Database)
    (serve : Database → World Tables (Unit {0}) → World Tables (Unit {0})) where
  abbrev pub after_create :
      Outcome (Unit {0})
      → World Tables (Unit {0})
      → List String × Outcome (Unit {0}) × World Tables (Unit {0})
  after_create (ok _) w = (
    opening_lines url ++ (ready_lines c ++ "order service shutting down" ∷ []),
    ok tt,
    serve (engine url) w,
  )
  after_create (raise e) w = (opening_lines url, raise e, w)
  after_create (exit n) w = (opening_lines url, exit n, w)

  -- lifespan: the lines that it logs, how it ends, and the world. `engine` is what the engine that
  -- shared/db.py makes of a URL reaches: with a wrong password, a database that refuses. `serve` is what
  -- the requests do there between startup and shutdown.
  unfoldable pub lifespan :
      World Tables (Unit {0}) → List String × Outcome (Unit {0}) × World Tables (Unit {0})
  unfolding create_all
  lifespan w = let (o, w') = create_all (engine url) w in after_create o w'

-- What stands in front of an `@` is not told.
has_at-append : (s t : String) → has_at t ≡ true → has_at (append s t) ≡ true
has_at-append String.[] t h = rw nil-append h
has_at-append (String.◌∷◌ c s) t h = rw cons-append (ground (arith, has_at-append s t h))

after_last_at-append :
    (s t : String) → has_at t ≡ true → after_last_at (append s t) ≡ after_last_at t
unfolding after_last_at
after_last_at-append String.[] t h = rw nil-append refl
after_last_at-append (String.◌∷◌ c s) t h =
    rw (cons-append, has_at-append s t h) (after_last_at-append s t h)

after_last_at-tail : (t : String) → has_at t ≡ false → after_last_at (append "@" t) ≡ t
unfolding after_last_at
after_last_at-tail t h = rw (cons-append, nil-append, h) refl

has_at-at : (t : String) → has_at (append "@" t) ≡ true
has_at-at t = rw cons-append (ground arith)

module _ (url : String) (c : Config) (engine : String → Database)
    (serve : Database → World Tables (Unit {0}) → World Tables (Unit {0}))
    (w : World Tables (Unit {0})) where
  -- With an engine that create_all succeeds on, the process logs these lines, those of the ready
  -- service and the last one, and serves the requests; with one that refuses it, these lines only, and
  -- the exception is passed on.
  abbrev pub Logs : List String → Type 0
  Logs lines =
      (lifespan url c engine serve w ≡ (
        lines ++ (ready_lines c ++ "order service shutting down" ∷ []),
        ok tt,
        serve (engine url) (ticked w),
      ))
      ⊎ ((e : Exc) × (((engine url).fault w.tick ≡ some e)
            × (lifespan url c engine serve w ≡ (lines, raise e, ticked w))))

  lifespan-Logs : Logs (opening_lines url)
  unfolding lifespan
  lifespan-Logs = elim (Option-cases ((engine url).fault w.tick)) [
    | inl calm ↦ inl (ground (arith, calm))
    | inr (e, refused) ↦ inr (e, (refused, ground (arith, refused)))
  ]

module _ (py : Python) (user host db : String) (port : ℤ) where
  -- The part of the assembled DATABASE_URL behind the password.
  abbrev pub address : String
  address = append host (append ":" (append (py.str_int port) (append "/" db)))

  after_last_at-url :
      (password : String)
      → has_at address ≡ false
      → after_last_at (database_url_of py user password host port db) ≡ address
  after_last_at-url password h =
      let at = append "@" address in
      let behind = append ":" (append password at) in
      let found = has_at-append password at (has_at-at address) in
      let found' = has_at-append ":" (append password at) found in
      after_last_at-append _ _ (has_at-append user behind found')
      ∙ (after_last_at-append user behind found'
          ∙ (after_last_at-append ":" (append password at) found
              ∙ (after_last_at-append password at (has_at-at address)
                  ∙ after_last_at-tail address h)))

  opening_lines-url :
      (password : String)
      → has_at address ≡ false
      → opening_lines (database_url_of py user password host port db)
        ≡ "order service starting" ∷ append "database: " address ∷ []
  unfolding opening_lines
  opening_lines-url password h =
      ap (λ a. "order service starting" ∷ append "database: " a ∷ []) (after_last_at-url password h)

  -- No password gets into the lines that the lifespan logs, also if it holds an `@`: where DATABASE_URL
  -- is assembled from its parts, and host, port and database have no `@`, these lines are made of host,
  -- port, database and flags alone. With an engine that create_all succeeds on, they are the first two,
  -- those of the ready service and the last one, and the requests are served; with one that refuses it,
  -- such as one with a wrong password, they are the first two, and the exception is passed on.
  pub lifespan-hides :
      (password : String) (c : Config) (engine : String → Database)
      (serve : Database → World Tables (Unit {0}) → World Tables (Unit {0}))
      (w : World Tables (Unit {0}))
      → has_at address ≡ false
      → Logs
          (database_url_of py user password host port db)
          c
          engine
          serve
          w
          ("order service starting" ∷ append "database: " address ∷ [])
  lifespan-hides password c engine serve w h =
      subst (Logs (database_url_of py user password host port db) c engine serve w)
        (opening_lines-url password h)
        (lifespan-Logs (database_url_of py user password host port db) c engine serve w)
