-- ===== src/Shipping/Laws.antt =====
-- What one call of Shipping's `handle` can have done.
use outbox_fanout.Prelude.{
  ℕ, String, Bool, true, false, ◌≡◌, refl, inl, inr, List, [], ◌∷◌, ◌++◌, arith,
}
use outbox_fanout.Outcome.{Outcome, ok, raise, exit}
use outbox_fanout.Db.{Database, session_scope, ticked}
use outbox_fanout.Json.{Value, str}
use outbox_fanout.Formats.{Formats, Uuid}
use outbox_fanout.Host.{Host}
use outbox_fanout.Claims.{◌>>=◌, text_column}
use outbox_fanout.Claims.Laws
use outbox_fanout.Claims.Laws.{Halted, is_taken, Claimed, claimed, taken, claiming-Claimed}
use outbox_fanout.Shipping.{
  Shipment, Shipping, Parcel, Bound, parcel_of_event, bind, row_of, ship_order, insert_bound, ship,
}

abbrev pub is_shipped : Uuid → List Shipment → Bool
is_shipped = is_taken (λ r. r.order_id) (λ r. r.id)

-- `shipped`: one shipment more, for the order of the event, which had none, under the tracking number
-- of this attempt. `ignored`: the order has a shipment, and nothing changes. `halted`: no answer, and
-- nothing changes.
pub data Shipped (f : Formats) (host : Host) (short : Uuid → String) (event : Value) (w : Shipping)
    (o : Outcome Bool) (w' : Shipping) : Type 0 where
  shipped :
      (parcel : Parcel) (row : Shipment)
      → parcel_of_event f short (host.uuid4 w.tick) event ≡ ok parcel
      → row.order_id ≡ parcel.order_id
      → row.tracking_number ≡ parcel.tracking
      → is_shipped row.order_id w.tables ≡ false
      → o ≡ ok true
      → w'.tables ≡ w.tables ++ row ∷ []
      → Shipped f host short event w o w'
  ignored :
      (parcel : Parcel)
      → parcel_of_event f short (host.uuid4 w.tick) event ≡ ok parcel
      → is_shipped parcel.order_id w.tables ≡ true
      → o ≡ ok false
      → w'.tables ≡ w.tables
      → Shipped f host short event w o w'
  halted : Halted o → w'.tables ≡ w.tables → Shipped f host short event w o w'

bind-ok :
    {A B : Type 0} (o : Outcome A) {k : A → Outcome B} {b : B}
    → (o >>= k) ≡ ok b
    → (a : A) × (o ≡ ok a) × (k a ≡ ok b)
bind-ok (ok a) h = (a, refl, h)
bind-ok (raise e) h = absurd (ground arith)
bind-ok (exit code) h = absurd (ground arith)

-- A text is stored as it is, if it is.
text_column-str : (db : Database) (n : ℕ) (s r : String) → text_column db n (str s) ≡ ok r → r ≡ s
unfolding text_column
text_column-str db n s r h = ground arith

-- The row of an event is for what was bound.
row_of-order :
    (db : Database) (id at : ℕ) (b : Bound) (row : Shipment)
    → row_of db id at b ≡ ok row
    → (row.order_id ≡ b.order_id) × (row.tracking_number ≡ b.tracking_number)
unfolding row_of
row_of-order db id at b row h =
    let (customer_id, _, h₁) = bind-ok (text_column db 64 b.customer_id) h in
    let (item, _, h₂) = bind-ok (text_column db 255 b.item) h₁ in
    let (tracking, stored, h₃) = bind-ok (text_column db 32 (str b.tracking_number)) h₂ in
    (ground arith, ground (arith, text_column-str db 32 b.tracking_number tracking stored))

bind-order :
    (f : Formats) (short : Uuid → String) (event : Value) (parcel : Parcel) (b : Bound)
    → bind f short event parcel ≡ ok b
    → (b.order_id ≡ parcel.order_id) × (b.tracking_number ≡ parcel.tracking)
unfolding bind
bind-order f short event parcel b h = ground arith

module _ (f : Formats) (db : Database) (host : Host) (short : Uuid → String) (event : Value)
    (w : Shipping) where
  abbrev pub shipping : Outcome Bool × Shipping
  shipping = ship f db host short event w

  module _ (parcel : Parcel)
      (named : parcel_of_event f short (host.uuid4 w.tick) event ≡ ok parcel) where
    abbrev run : Outcome Bound → Outcome Bool × Shipping
    run b = session_scope db (insert_bound f db host short b) (ticked w)

    Claimed-Shipped :
        {o : Outcome Bool} {w' : Shipping} (b : Bound)
        → (b.order_id ≡ parcel.order_id) × (b.tracking_number ≡ parcel.tracking)
        → Claimed
            (λ r. r.order_id)
            (λ r. r.id)
            (row_of db (host.uuid4 (ticked w).tick) (host.now (ticked w).tick) b)
            (ticked w)
            o
            w'
        → Shipped f host short event w o w'
    Claimed-Shipped b same (claimed row made free p t) =
        let (order, tracking) = row_of-order db _ _ b row made in
        shipped parcel row named (rw (order, same.0) refl) (rw (tracking, same.1) refl) free p t
    Claimed-Shipped b same (taken row made there p t) =
        let (order, _) = row_of-order db _ _ b row made in
        ignored parcel named (rw (← same.0, ← order) there) p t
    Claimed-Shipped b same (Laws.halted h t) = halted h t

    bound :
        (b : Outcome Bound)
        → bind f short event parcel ≡ b
        → Shipped f host short event w (run b).0 (run b).1
    unfolding session_scope
    bound (ok b) p = Claimed-Shipped b (bind-order f short event parcel b p) (
        claiming-Claimed (λ r. r.order_id) (λ r. r.id) db
          (row_of db (host.uuid4 (ticked w).tick) (host.now (ticked w).tick) b) (ticked w))
    bound (raise e) p = halted (inl (e, refl)) refl
    bound (exit code) p = halted (inr (code, refl)) refl

  parcelled :
      (o : Outcome Parcel)
      → parcel_of_event f short (host.uuid4 w.tick) event ≡ o
      → Shipped f host short event w
          (ship_order f db host short event o (ticked w)).0
          (ship_order f db host short event o (ticked w)).1
  parcelled (ok parcel) p = bound parcel p (bind f short event parcel) refl
  parcelled (raise e) p = halted (inl (e, refl)) refl
  parcelled (exit code) p = halted (inr (code, refl)) refl

  -- Every branch of Shipping's `handle`, whatever the event holds and the database answers: one new
  -- shipment under this attempt's tracking number, or nothing changes.
  pub ship-Shipped : Shipped f host short event w shipping.0 shipping.1
  unfolding ship
  ship-Shipped = parcelled (parcel_of_event f short (host.uuid4 w.tick) event) refl
