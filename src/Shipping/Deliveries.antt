-- ===== src/Shipping/Deliveries.antt =====
-- Shipping's table under any number of deliveries.
use outbox_fanout.Prelude.{
  ℕ, suc, String, Bool, true, false, ◌≡◌, refl, sym, subst, ◌≤◌, inl, inr, none, List, [], ◌∷◌,
  ◌++◌, any, arith, chars, ◌==◌,
}
use outbox_fanout.Outcome.{ok, raise, exit}
use outbox_fanout.Db.{Database}
use outbox_fanout.Json.{Value, obj, get, subscript}
use outbox_fanout.Formats.{Formats, Uuid}
use outbox_fanout.Host.{Host}
use outbox_fanout.Config.{Config}
use outbox_fanout.Tables.{Order}
use outbox_fanout.Order.Service.{event_of, build_payload}
use outbox_fanout.Relay.Publisher.{build_message}
use outbox_fanout.Claims.{uuid_of_value, text_column}
use outbox_fanout.Claims.Laws.{IsLedger, IsLedger-snoc, is_taken-snoc}
use outbox_fanout.Shipping.{
  Shipment, Shipping, Parcel, tracking_number, parcel_of_event, bind, row_of, ship, logged, handle,
}
use outbox_fanout.Shipping.Laws.{Shipped, shipped, ignored, halted, is_shipped, ship-Shipped}

module _ (f : Formats) (db : Database) (host : Host) (short : Uuid → String) where
  module _ (event : Value) (w : Shipping) where
    Shipped-IsLedger :
        (t₀ : List Shipment)
        → Shipped f host short event w
            (ship f db host short event w).0
            (ship f db host short event w).1
        → IsLedger (λ r. r.order_id) t₀ w.tables
        → IsLedger (λ r. r.order_id) t₀ (ship f db host short event w).1.tables
    Shipped-IsLedger t₀ (shipped parcel row _ _ _ free _ t) h =
        rw t (IsLedger-snoc (λ r. r.order_id) (λ r. r.id) t₀ row w.tables free h)
    Shipped-IsLedger t₀ (ignored parcel _ _ _ t) h = subst (IsLedger (λ r. r.order_id) t₀) (sym t) h
    Shipped-IsLedger t₀ (halted _ t) h = subst (IsLedger (λ r. r.order_id) t₀) (sym t) h

  -- No delivery changes or repeats what the table has.
  pub handle-IsLedger :
      (event : Value) (w : Shipping) (t₀ : List Shipment)
      → IsLedger (λ r. r.order_id) t₀ w.tables
      → IsLedger (λ r. r.order_id) t₀ (handle f db host short event w).1.tables
  unfolding handle
  handle-IsLedger event w t₀ h =
      Shipped-IsLedger event w t₀ (ship-Shipped f db host short event w) h

  module _ (event : Value) (parcel : Parcel) (w : Shipping)
      (named : parcel_of_event f short (host.uuid4 w.tick) event ≡ ok parcel) where
    Shipped-answered :
        {w' : Shipping} (fresh : Bool)
        → Shipped f host short event w (ok fresh) w'
        → is_shipped parcel.order_id w'.tables ≡ true
    Shipped-answered {w'} fresh (shipped p row same order _ _ _ t) =
        subst (λ k. is_shipped k w'.tables ≡ true) (ground arith)
          (subst (λ rows. is_shipped row.order_id rows ≡ true) (sym t)
            (is_taken-snoc (λ r. r.order_id) (λ r. r.id) row w.tables))
    Shipped-answered {w'} fresh (ignored p same there _ t) = ground arith
    Shipped-answered fresh (halted (inl (e, p)) t) = absurd (ground arith)
    Shipped-answered fresh (halted (inr (code, p)) t) = absurd (ground arith)

    Shipped-again :
        {o : _} {w' : Shipping}
        → Shipped f host short event w o w'
        → is_shipped parcel.order_id w.tables ≡ true
        → w'.tables ≡ w.tables
    Shipped-again (shipped p row same order _ free _ t) there = absurd (ground arith)
    Shipped-again (ignored p same _ _ t) there = t
    Shipped-again (halted _ t) there = t

    answered :
        (o : _)
        → (ship f db host short event w).0 ≡ o
        → logged f db host short o ≡ ok tt
        → is_shipped parcel.order_id (ship f db host short event w).1.tables ≡ true
    answered (ok fresh) q p = Shipped-answered fresh (
        subst (λ x. Shipped f host short event w x (ship f db host short event w).1) q
          (ship-Shipped f db host short event w))
    answered (raise e) q p = absurd (ground arith)
    answered (exit code) q p = absurd (ground arith)

    -- Where `handle` returns for an event of an order, that order has a shipment.
    pub handle-shipped :
        (handle f db host short event w).0 ≡ ok tt
        → is_shipped parcel.order_id (handle f db host short event w).1.tables ≡ true
    unfolding handle
    handle-shipped returned = answered (ship f db host short event w).0 refl returned

    -- An event of an order that has a shipment changes nothing.
    pub handle-kept :
        is_shipped parcel.order_id w.tables ≡ true
        → (handle f db host short event w).1.tables ≡ w.tables
    unfolding handle
    handle-kept there = Shipped-again (ship-Shipped f db host short event w) there

  -- The database answers, and the minted key is not taken.
  pub record IsServed (w : Shipping) : Type 0 where
    pub answers : (n : ℕ) → db.fault n ≡ none
    pub fresh_key : any (λ r. r.id == host.uuid4 (suc w.tick)) w.tables ≡ false

  module _ (c : Config) (event_id at : ℕ) (order : Order) (w : Shipping) where
    abbrev pub shipped_row : Shipment
    shipped_row = record {
      id = host.uuid4 (suc w.tick);
      order_id = order.id;
      event_id = event_id;
      customer_id = order.customer_id;
      item = order.item;
      tracking_number = tracking_number short (host.uuid4 w.tick);
      processed_at = host.now (suc w.tick);
    }

    abbrev pub order_event : Value
    order_event = obj (build_message f (event_of f c event_id at order))

    event_parcel :
        parcel_of_event f short (host.uuid4 w.tick) order_event
        ≡ ok (record {
          payload = obj (build_payload f order);
          order_id = order.id;
          tracking = tracking_number short (host.uuid4 w.tick);
        })
    unfolding parcel_of_event build_message build_payload get uuid_of_value subscript
    event_parcel = rw (f.uuid_of-uuid_text order.id) refl

    -- The relay's event of an order that fits the columns makes one shipment with the order's key,
    -- customer and item and the tracking number of this attempt, where the order has none, the
    -- database answers and the minted key is fresh.
    pub handle-parcel :
        IsServed w
        → is_shipped order.id w.tables ≡ false
        → chars order.customer_id ≤ 64
        → chars order.item ≤ 255
        → chars (tracking_number short (host.uuid4 w.tick)) ≤ 32
        → ((handle f db host short order_event w).0 ≡ ok tt)
          × ((handle f db host short order_event w).1.tables ≡ w.tables ++ shipped_row ∷ [])
    unfolding handle ship bind row_of build_message build_payload get uuid_of_value text_column
        subscript
    handle-parcel served free fits item_fits short_fits =
        rw (event_parcel, f.uuid_of-uuid_text event_id)
          (ground (
            arith,
            served.answers (suc w.tick),
            served.answers (suc (suc w.tick)),
            served.fresh_key,
          ))
