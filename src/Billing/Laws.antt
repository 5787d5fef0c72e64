-- ===== src/Billing/Laws.antt =====
-- Billing an order once, however often its event is delivered.
use outbox_fanout.Prelude.{ℕ, Bool, true, false, ◌≡◌, refl, inl, inr, List, [], ◌∷◌, ◌++◌, arith}
use outbox_fanout.Outcome.{Outcome, ok, raise, exit}
use outbox_fanout.Db.{Database, session_scope}
use outbox_fanout.Json.{Value}
use outbox_fanout.Formats.{Formats, Uuid}
use outbox_fanout.Host.{Host}
use outbox_fanout.Claims.Laws
use outbox_fanout.Claims.Laws.{
  Halted, is_taken, Claimed, claimed, taken, claiming-Claimed, Distinct-insert,
}
use outbox_fanout.Billing.{
  BillingRecord, Billing, Bound, order_of_event, bind, row_of, bill_order, insert_bound, bill,
}

abbrev pub is_billed : Uuid → List BillingRecord → Bool
is_billed = is_taken (λ r. r.order_id) (λ r. r.id)

-- `billed`: one record more, for the order of the event, which had none. `ignored`: the order has a
-- record, and nothing changes. `halted`: no answer, and nothing changes.
pub data Billed (f : Formats) (db : Database) (event : Value) (w : Billing) (o : Outcome Bool)
    (w' : Billing) : Type 0 where
  billed :
      (payload : Value) (row : BillingRecord)
      → order_of_event f event ≡ ok (payload, row.order_id)
      → is_billed row.order_id w.tables ≡ false
      → o ≡ ok true
      → w'.tables ≡ w.tables ++ row ∷ []
      → Billed f db event w o w'
  ignored :
      (payload : Value) (id : Uuid)
      → order_of_event f event ≡ ok (payload, id)
      → is_billed id w.tables ≡ true
      → o ≡ ok false
      → w'.tables ≡ w.tables
      → Billed f db event w o w'
  halted : Halted o → w'.tables ≡ w.tables → Billed f db event w o w'

-- The row of an event is for the order that was bound.
row_of-order :
    (db : Database) (id at : ℕ) (b : Bound) (row : BillingRecord)
    → row_of db id at b ≡ ok row
    → row.order_id ≡ b.order_id
unfolding row_of
row_of-order db id at b row h = ground arith

bind-order :
    (f : Formats) (event payload : Value) (id : Uuid) (b : Bound)
    → bind f event (payload, id) ≡ ok b
    → b.order_id ≡ id
unfolding bind
bind-order f event payload id b h = ground arith

module _ (f : Formats) (db : Database) (host : Host) (event : Value) (w : Billing) where
  abbrev pub billing : Outcome Bool × Billing
  billing = bill f db host event w

  module _ (payload : Value) (id : Uuid) (named : order_of_event f event ≡ ok (payload, id)) where
    abbrev run : Outcome Bound → Outcome Bool × Billing
    run b = session_scope db (insert_bound f db host b) w

    Claimed-Billed :
        {o : Outcome Bool} {w' : Billing} (b : Bound)
        → b.order_id ≡ id
        → Claimed
            (λ r. r.order_id)
            (λ r. r.id)
            (row_of db (host.uuid4 w.tick) (host.now w.tick) b)
            w
            o
            w'
        → Billed f db event w o w'
    Claimed-Billed b same (claimed row made free p t) =
        billed payload row (rw (row_of-order db _ _ b row made, same) named) free p t
    Claimed-Billed b same (taken row made there p t) =
        ignored payload row.order_id (rw (row_of-order db _ _ b row made, same) named) there p t
    Claimed-Billed b same (Laws.halted h t) = halted h t

    bound :
        (b : Outcome Bound)
        → bind f event (payload, id) ≡ b
        → Billed f db event w (run b).0 (run b).1
    unfolding session_scope
    bound (ok b) p = Claimed-Billed b (bind-order f event payload id b p) (
        claiming-Claimed (λ r. r.order_id) (λ r. r.id) db
          (row_of db (host.uuid4 w.tick) (host.now w.tick) b) w)
    bound (raise e) p = halted (inl (e, refl)) refl
    bound (exit code) p = halted (inr (code, refl)) refl

  ordered :
      (o : Outcome (Value × Uuid))
      → order_of_event f event ≡ o
      → Billed f db event w (bill_order f db host event o w).0 (bill_order f db host event o w).1
  ordered (ok (payload, id)) p = bound payload id p (bind f event (payload, id)) refl
  ordered (raise e) p = halted (inl (e, refl)) refl
  ordered (exit code) p = halted (inr (code, refl)) refl

  -- Every branch of Billing's `handle`, whatever the event holds and the database answers.
  pub bill-Billed : Billed f db event w billing.0 billing.1
  unfolding bill
  bill-Billed = ordered (order_of_event f event) refl
