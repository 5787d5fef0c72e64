-- ===== src/Billing/Deliveries.antt =====
-- Billing's table under any number of deliveries.
use outbox_fanout.Prelude.{
  ℕ, suc, Bool, true, false, ◌≡◌, refl, sym, subst, ◌≤◌, inl, inr, none, some, List, [], ◌∷◌, ◌++◌,
  any, arith, chars, ◌==◌,
}
use outbox_fanout.Outcome.{ok, raise, exit}
use outbox_fanout.Db.{Database}
use outbox_fanout.Json.{Value, obj, get, subscript}
use outbox_fanout.Formats.{Formats, Uuid}
use outbox_fanout.Host.{Host}
use outbox_fanout.Config.{Config}
use outbox_fanout.Tables.{Order}
use outbox_fanout.Order.Service.{event_of, build_payload}
use outbox_fanout.Relay.Publisher.{build_message}
use outbox_fanout.Claims.{uuid_of_value, decimal_of_value, text_column, numeric_column}
use outbox_fanout.Claims.Laws.{IsLedger, IsLedger-snoc, is_taken-snoc}
use outbox_fanout.Billing.{
  BillingRecord, Billing, order_of_event, bind, row_of, bill, logged, handle,
}
use outbox_fanout.Billing.Laws.{Billed, billed, ignored, halted, is_billed, bill-Billed}

module _ (f : Formats) (db : Database) (host : Host) where
  module _ (event : Value) (w : Billing) where
    Billed-IsLedger :
        (t₀ : List BillingRecord)
        → Billed f db event w (bill f db host event w).0 (bill f db host event w).1
        → IsLedger (λ r. r.order_id) t₀ w.tables
        → IsLedger (λ r. r.order_id) t₀ (bill f db host event w).1.tables
    Billed-IsLedger t₀ (billed payload row _ free _ t) h =
        rw t (IsLedger-snoc (λ r. r.order_id) (λ r. r.id) t₀ row w.tables free h)
    Billed-IsLedger t₀ (ignored payload id _ _ _ t) h =
        subst (IsLedger (λ r. r.order_id) t₀) (sym t) h
    Billed-IsLedger t₀ (halted _ t) h = subst (IsLedger (λ r. r.order_id) t₀) (sym t) h

  -- No delivery changes or repeats what the table has.
  pub handle-IsLedger :
      (event : Value) (w : Billing) (t₀ : List BillingRecord)
      → IsLedger (λ r. r.order_id) t₀ w.tables
      → IsLedger (λ r. r.order_id) t₀ (handle f db host event w).1.tables
  unfolding handle
  handle-IsLedger event w t₀ h = Billed-IsLedger event w t₀ (bill-Billed f db host event w) h

  module _ (event payload : Value) (id : Uuid) (w : Billing)
      (named : order_of_event f event ≡ ok (payload, id)) where
    Billed-answered :
        {w' : Billing} (fresh : Bool)
        → Billed f db event w (ok fresh) w'
        → is_billed id w'.tables ≡ true
    Billed-answered {w'} fresh (billed p row same _ _ t) =
        subst (λ k. is_billed k w'.tables ≡ true) (ground arith)
          (subst (λ rows. is_billed row.order_id rows ≡ true) (sym t)
            (is_taken-snoc (λ r. r.order_id) (λ r. r.id) row w.tables))
    Billed-answered {w'} fresh (ignored p k same there _ t) = ground arith
    Billed-answered fresh (halted (inl (e, p)) t) = absurd (ground arith)
    Billed-answered fresh (halted (inr (code, p)) t) = absurd (ground arith)

    Billed-again :
        {o : _} {w' : Billing}
        → Billed f db event w o w'
        → is_billed id w.tables ≡ true
        → w'.tables ≡ w.tables
    Billed-again (billed p row same free _ t) there = absurd (ground arith)
    Billed-again (ignored p k same _ _ t) there = t
    Billed-again (halted _ t) there = t

    answered :
        (o : _)
        → (bill f db host event w).0 ≡ o
        → logged f db host o ≡ ok tt
        → is_billed id (bill f db host event w).1.tables ≡ true
    answered (ok fresh) q p = Billed-answered fresh (
        subst (λ x. Billed f db event w x (bill f db host event w).1) q
          (bill-Billed f db host event w))
    answered (raise e) q p = absurd (ground arith)
    answered (exit code) q p = absurd (ground arith)

    -- Where `handle` returns for an event of an order, that order has a record.
    pub handle-billed :
        (handle f db host event w).0 ≡ ok tt
        → is_billed id (handle f db host event w).1.tables ≡ true
    unfolding handle
    handle-billed returned = answered (bill f db host event w).0 refl returned

    -- An event of an order that has a record changes nothing.
    pub handle-again : is_billed id w.tables ≡ true → (handle f db host event w).1.tables ≡ w.tables
    unfolding handle
    handle-again there = Billed-again (bill-Billed f db host event w) there

  -- The database answers, and the minted key is not taken.
  pub record IsServed (w : Billing) : Type 0 where
    pub answers : (n : ℕ) → db.fault n ≡ none
    pub fresh_key : any (λ r. r.id == host.uuid4 w.tick) w.tables ≡ false

  module _ (c : Config) (event_id at : ℕ) (order : Order) where
    abbrev pub order_event : Value
    order_event = obj (build_message f (event_of f c event_id at order))

    pub event_order : order_of_event f order_event ≡ ok (obj (build_payload f order), order.id)
    unfolding order_of_event build_message build_payload get uuid_of_value subscript
    event_order = rw (f.uuid_of-uuid_text order.id) refl

  module _ (c : Config) (event_id at : ℕ) (order : Order) (w : Billing) where
    abbrev pub billed_row : BillingRecord
    billed_row = record {
      id = host.uuid4 w.tick;
      order_id = order.id;
      event_id = event_id;
      customer_id = order.customer_id;
      amount = order.amount;
      processed_at = host.now w.tick;
    }

    -- The relay's event of an order that fits the columns makes one record with the order's key,
    -- customer and amount, where the order has none, the database answers and the minted key is fresh.
    pub handle-order :
        IsServed w
        → is_billed order.id w.tables ≡ false
        → chars order.customer_id ≤ 64
        → db.numeric order.amount ≡ some order.amount
        → ((handle f db host (order_event c event_id at order) w).0 ≡ ok tt)
          × ((handle f db host (order_event c event_id at order) w).1.tables
              ≡ w.tables ++ billed_row ∷ [])
    unfolding handle bill bind row_of build_message build_payload get uuid_of_value decimal_of_value
        text_column numeric_column subscript
    handle-order served free fits numeric =
        rw
          (
            event_order c event_id at order,
            f.uuid_of-uuid_text event_id,
            f.decimal_of-decimal_text order.amount,
          )
          (ground (arith, served.answers w.tick, served.answers (suc w.tick), served.fresh_key))
