-- ===== src/Examples/OrderRuns.antt =====
-- Requests to the Order Service.
use mathlib.Core.List.{Perm}
use outbox_fanout.Prelude.{
  str_eq, String, if◌then◌else◌, ◌++◌, select, none, some, List, length, ◌≤◌, ◌⊎◌, true, ◌≡◌, refl,
  [], ◌∷◌,
}
use outbox_fanout.Outcome.{database_error, ok}
use outbox_fanout.Config.{Config, defaults}
use outbox_fanout.Order.Routes.{create_order, list_outbox}
use outbox_fanout.Order.Atomicity.{Posted, IsPaired, serve, create_order-Posted, serve-IsPaired}
use outbox_fanout.Order.Listing.{is_wanted, list_outbox_lem}
use outbox_fanout.Prelude.Descending.{IsDescending}
use outbox_fanout.Tables.{OutboxEvent, Tables}
use outbox_fanout.Db.{World, Database}
use outbox_fanout.Prelude.Predicates.{All}
use outbox_fanout.Settings.{database_url_of}
use outbox_fanout.Settings.Parsers.{Python, pos}
use outbox_fanout.Order.Lifespan.{Logs, lifespan-hides}
use outbox_fanout.Examples.Notation.{notation}
use outbox_fanout.Examples.Setting.{calm, host, request, no_orders, row}

abbrev broken : Config
broken = record defaults { break_outbox_insert = true }

create_order-Posted_example :
    Posted notation defaults request no_orders
      (create_order notation calm host defaults request no_orders).0
      (create_order notation calm host defaults request no_orders).1
create_order-Posted_example = create_order-Posted notation calm host defaults request no_orders

serve-IsPaired_example :
    IsPaired (serve notation calm host defaults (request ∷ request ∷ []) no_orders).tables
serve-IsPaired_example =
    serve-IsPaired notation calm host defaults (request ∷ request ∷ []) no_orders
      (record { events = refl; order_keys = tt; event_keys = tt; typed = tt })

-- A published row, and a more recent one that is not.
abbrev two_rows : World Tables (Unit {0})
two_rows = record no_orders {
  tables = record {
    orders = [];
    outbox = record (row 1 10) { published = true; published_at = some 11 } ∷ row 2 20 ∷ [];
  };
}

list_outbox_lem_example :
    (found : List OutboxEvent) × (left_out : List OutboxEvent) × ((list_outbox notation calm host
        defaults true 1 two_rows).0
      ≡ ok found)
    × ((list_outbox notation calm host defaults true 1 two_rows).1.tables ≡ two_rows.tables)
    × IsDescending (λ e. e.created_at) found
    × Perm (found ++ left_out) (select (is_wanted true) two_rows.tables.outbox)
    × (length found ≤ 1)
    × ((left_out ≡ []) ⊎ (length found ≡ 1))
    × All (λ e. All (λ b. e.created_at ≤ b.created_at) found) left_out
list_outbox_lem_example = list_outbox_lem notation calm host defaults true 1 two_rows refl

abbrev py : Python
py = record {
  int_of = λ s. none;
  str_int = λ n. "5432";
  strip = λ s. s;
  lower = λ s. s;
  upper = λ s. s;
}

-- A server that knows one password.
abbrev engine : String → Database
engine url =
    if str_eq url (database_url_of py "myuser" "p@ss" "localhost" (pos 5432) "mydatabase")
    then calm
    else record calm { fault = λ n. some database_error }

-- A password with an `@`, and a request.
lifespan-hides_example :
    Logs
      (database_url_of py "myuser" "p@ss" "localhost" (pos 5432) "mydatabase")
      defaults
      engine
      (λ db. serve notation db host defaults (request ∷ []))
      no_orders
      ("order service starting" ∷ "database: localhost:5432/mydatabase" ∷ [])
lifespan-hides_example =
    lifespan-hides py "myuser" "localhost" "mydatabase" (pos 5432) "p@ss" defaults engine
      (λ db. serve notation db host defaults (request ∷ [])) no_orders refl
