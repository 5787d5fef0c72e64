-- ===== src/Tables/Inserts.antt =====
-- What an INSERT can do: one row more under a fresh key, or an exception and nothing.
use outbox_fanout.Prelude.{
  Bool, false, not, ◌&&◌, ◌||◌, ◌≡◌, ◌⊎◌, inl, inr, ◌∷◌, [], ◌++◌, arith, is_none, Bool-cases,
}
use outbox_fanout.Outcome.{Exc, integrity_error, database_error, ok, raise}
use outbox_fanout.Tables.{
  Order, OutboxEvent, Tables, has_order, has_event, fits, takes_order, insert_order, insert_event,
}

pub insert_order-cases :
    (o : Order) (t : Tables)
    → ((insert_order o t ≡ (ok tt, record t { orders = t.orders ++ o ∷ [] }))
        × (has_order o.id t.orders ≡ false))
      ⊎ ((e : Exc) × (insert_order o t ≡ (raise e, t)))
unfolding insert_order
insert_order-cases o t = elim (Bool-cases (takes_order o)) [
  | inr refused ↦ inr (database_error, rw refused)
  | inl taken ↦ elim (Bool-cases (has_order o.id t.orders)) [
    | inl stored ↦ inr (integrity_error, rw (taken, stored))
    | inr fresh ↦ inl (rw (taken, fresh), fresh)
  ]
]

abbrev event_refused : OutboxEvent → Tables → Bool
event_refused e t =
    has_event e.id t.outbox || is_none e.event_type || not (has_order e.order_id t.orders)

accepted_event :
    (e : OutboxEvent) (t : Tables)
    → event_refused e t ≡ false
    → (has_event e.id t.outbox ≡ false) × (is_none e.event_type ≡ false)
accepted_event e t h = ground arith

pub insert_event-cases :
    (e : OutboxEvent) (t : Tables)
    → ((insert_event e t ≡ (ok tt, record t { outbox = t.outbox ++ e ∷ [] }))
        × (has_event e.id t.outbox ≡ false)
        × (is_none e.event_type ≡ false))
      ⊎ ((x : Exc) × (insert_event e t ≡ (raise x, t)))
unfolding insert_event
insert_event-cases e t = elim (Bool-cases (event_refused e t)) [
  | inl bad ↦ inr (integrity_error, rw bad)
  | inr good ↦ elim (Bool-cases (fits 64 e.event_type && fits 500 e.last_error)) [
    | inl short ↦ inl (rw (good, short), (accepted_event e t good).0, (accepted_event e t good).1)
    | inr long ↦ inr (database_error, rw (good, long))
  ]
]
