-- ===== src/Order/Routes.antt =====
-- order/routes.py: POST /orders, GET /orders/{order_id} and GET /outbox.
use mathlib.Core.List.{reverse}
use outbox_fanout.Prelude.{
  ℕ, Bool, not, Option, none, some, List, [], ◌∷◌, ◌==◌, select, take, if◌then◌else◌,
}
use outbox_fanout.Prelude.Sort.{order_by}
use outbox_fanout.Outcome.{
  Exc, integrity_error, database_error, http_exception, Outcome, ok, raise, exit,
}
use outbox_fanout.Db.{Database, Action, pure, statement, commit, get_session, ◌>>=◌, ◌>>◌}
use outbox_fanout.Formats.{Formats, Uuid}
use outbox_fanout.Tables.{Order, OutboxEvent, Tables}
use outbox_fanout.Config.{Config}
use outbox_fanout.Host.{Host}
use outbox_fanout.Order.Service

-- The two `except` clauses of POST /orders.
abbrev pub on_database_error : Exc → Exc
on_database_error integrity_error = http_exception 422
on_database_error database_error = http_exception 503
on_database_error e = e

abbrev pub translated : {A : Type 0} → Outcome A → Outcome A
translated (ok a) = ok a
translated (raise e) = raise (on_database_error e)
translated (exit code) = exit code

abbrev pub or_not_found : Option Order → Outcome Order
or_not_found none = raise (http_exception 404)
or_not_found (some order) = ok order

abbrev pub first : List Order → Option Order
first [] = none
first (o ∷ os) = some o

module _ (f : Formats) (db : Database) (host : Host) (c : Config) where
  -- The `try` block: stage, then commit.
  unfoldable pub stage_and_commit : Service.OrderCreate → Service.OrderQuery Order
  unfolding commit
  stage_and_commit body = do order ← Service.create_order f db host c body; commit db; pure order

  -- create_order of order/routes.py
  unfoldable pub create_order : Service.OrderCreate → Action Tables (Unit {0}) Order
  unfolding get_session stage_and_commit
  create_order body =
      get_session (λ t w. let (o, t', w') = stage_and_commit body t w in (translated o, t', w'))

  -- get_order
  unfoldable pub get_order : Uuid → Action Tables (Unit {0}) Order
  unfolding get_session
  get_order id = get_session (do
    found ← statement db (λ t. (ok (first (select (λ o. o.id == id) t.orders)), t))
    (λ t w. (or_not_found found, t, w)))

  -- The rows of GET /outbox, the most recent first.
  unfoldable pub outbox_rows : Bool → ℕ → Tables → List OutboxEvent
  outbox_rows unpublished_only limit t = take limit (
      reverse (
        order_by (λ e. e.created_at)
          (if unpublished_only then select (λ e. not e.published) t.outbox else t.outbox)))

  -- list_outbox
  unfoldable pub list_outbox : Bool → ℕ → Action Tables (Unit {0}) (List OutboxEvent)
  unfolding get_session outbox_rows
  list_outbox unpublished_only limit =
      get_session (statement db (λ t. (ok (outbox_rows unpublished_only limit t), t)))
