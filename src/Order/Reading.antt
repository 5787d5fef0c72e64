-- ===== src/Order/Reading.antt =====
-- What the read endpoints return.
use outbox_fanout.Prelude.{
  true, false, ◌≡◌, refl, ◌⊎◌, inl, inr, none, some, List, [], ◌∷◌, arith, select, Bool-cases,
  ==_iff, ◌==◌,
}
use outbox_fanout.Prelude.Predicates.{In}
use outbox_fanout.Outcome.{ok, raise, http_exception}
use outbox_fanout.Db.{World, Database}
use outbox_fanout.Formats.{Formats, Uuid}
use outbox_fanout.Tables.{Order, Tables, has_order}
use outbox_fanout.Config.{Config}
use outbox_fanout.Host.{Host}
use outbox_fanout.Order.Routes.{get_order, first}

-- The first row under a key is a row under it.
first-found :
    (id : Uuid) (os : List Order)
    → has_order id os ≡ true
    → (o : Order) × (first (select (λ x. x.id == id) os) ≡ some o) × In o os × (o.id ≡ id)
first-found id [] h = absurd (ground arith)
first-found id (x ∷ os) h = elim (Bool-cases (x.id == id)) [
  | inl here ↦ (x, rw here refl, inl refl, (==_iff x.id id).0 here)
  | inr other ↦
      let (o, p, m, same) = first-found id os (rw other at h) in (o, rw other p, inr m, same)
]

first-absent :
    (id : Uuid) (os : List Order)
    → has_order id os ≡ false
    → first (select (λ x. x.id == id) os) ≡ none
first-absent id [] h = refl
first-absent id (x ∷ os) h = ground (arith, first-absent id os)

module _ (f : Formats) (db : Database) (host : Host) (c : Config) (id : Uuid)
    (w : World Tables (Unit {0})) where
  -- Where the database answers, GET /orders/{id} returns a stored order with that id, if there is
  -- one, and otherwise 404. It writes nothing.
  pub get_order_lem :
      db.fault w.tick ≡ none
      → (((has_order id w.tables.orders ≡ true)
            × ((o : Order) × ((get_order f db host c id w).0 ≡ ok o)
                × In o w.tables.orders
                × (o.id ≡ id)))
          ⊎ ((has_order id w.tables.orders ≡ false)
              × ((get_order f db host c id w).0 ≡ raise (http_exception 404))))
        × ((get_order f db host c id w).1.tables ≡ w.tables)
  unfolding get_order
  get_order_lem calm = (
    elim (Bool-cases (has_order id w.tables.orders)) [
      | inl there ↦
          let (o, p, m, same) = first-found id w.tables.orders there in
          inl (there, (o, ground arith, m, same))
      | inr missing ↦ inr (missing, ground (arith, first-absent id w.tables.orders missing))
    ],
    ground arith,
  )
