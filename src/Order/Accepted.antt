-- ===== src/Order/Accepted.antt =====
-- The bodies that POST /orders accepts (order/schemas.py), against the columns that its order is
-- stored in (order/models.py).
use outbox_fanout.Prelude.{
  eq_iff, ◌≢◌, ℕ, String, ◌≤◌, suc, false, ◌≡◌, refl, subst, inl, inr, ◌⊎◌, Option, none, some,
  List, [], ◌∷◌, arith, chars, Option-cases, Bool-cases, Bool, true, not, ◌||◌,
}
use outbox_fanout.Prelude.Predicates.{All, All-append}
use outbox_fanout.Outcome.{Outcome, ok, raise, http_exception}
use outbox_fanout.Db.{World, Database}
use outbox_fanout.Json.{Value, obj, get, Fields, entry, null, bool, num, real, str, arr}
use outbox_fanout.Formats.{Formats, Decimal}
use outbox_fanout.Tables.{Order, OutboxEvent, Tables, has_nul, takes_order}
use outbox_fanout.Config.{Config}
use outbox_fanout.Host.{Host}
use outbox_fanout.Order.Service.{OrderCreate, order_of, event_of}
use outbox_fanout.Order.Routes.{create_order}
use outbox_fanout.Order.Atomicity.{Posted, stored, refused, create_order-Posted, with_pair}
use outbox_fanout.Order.Responses.{IsServed, create_order-created, create_order-refused}
use outbox_fanout.Order.Prices.{IsPrice, price-range}
use outbox_fanout.Order.Validation.{
  Pydantic, IsDocumented, ◌>>=◌, customer_id_of, item_of, amount_of, validate, unprocessable,
  answered, post_order, post_orders,
}

-- A text that is not empty, in a column of that length.
abbrev pub IsBetween : ℕ → String → Type 0
IsBetween most s = (1 ≤ chars s) × (chars s ≤ most)

pub record IsStorable (o : Order) : Type 0 where
  pub customer : IsBetween 64 o.customer_id
  pub item : IsBetween 255 o.item
  pub price : IsPrice o.amount

>>=-some :
    {A B : Type 0} (o : Option A) (g : A → Option B) (b : B)
    → (o >>= g) ≡ some b
    → (a : A) × (o ≡ some a) × (g a ≡ some b)
>>=-some none g b h = absurd (ground arith)
>>=-some (some a) g b h = (a, refl, h)

-- A text of the body has a NUL.
abbrev pub with_nul : OrderCreate → Bool
with_nul body = has_nul body.customer_id || has_nul body.item

-- Of what a storable order holds, the columns refuse a NUL only.
takes_order-nul :
    (o : Order) → IsStorable o → takes_order o ≡ not (has_nul o.customer_id || has_nul o.item)
takes_order-nul o storable =
    ground (arith, storable.customer.1, storable.item.1, price-range o.amount storable.price)

-- The order and the event of an accepted body.
abbrev pub order_from : Host → World Tables (Unit {0}) → OrderCreate → Order
order_from host w body = order_of (host.uuid4 w.tick) (host.now w.tick) body

abbrev pub event_from :
    Formats → Host → Config → World Tables (Unit {0}) → OrderCreate → OutboxEvent
event_from f host c w body =
    event_of f c (host.uuid4 (suc w.tick)) (host.now (suc w.tick)) (order_from host w body)

module _ (p : Pydantic) (documented : IsDocumented p) where
  price : (v : Value) (d : Decimal) → amount_of p v ≡ some d → IsPrice d
  unfolding amount_of
  price v d h = record {
    above = omega (arith, documented.decimal-gt 0 12 2 v d h);
    below = documented.decimal-digits 0 12 2 v d h;
    cents = documented.decimal-places 0 12 2 v d h;
  }

  -- An accepted body, whatever else it holds, has a customer, an item and a price for its columns.
  pub validate-IsStorable :
      (v : Value) (body : OrderCreate)
      → validate p v ≡ some body
      → (id at : ℕ) → IsStorable (order_of id at body)
  unfolding validate customer_id_of item_of
  validate-IsStorable (obj fields) body h id at =
      let (v₁, _, h₁) = >>=-some (get "customer_id" fields) _ body h in
      let (s₁, q₁, k₁) = >>=-some (customer_id_of p v₁) _ body h₁ in
      let (v₂, _, h₂) = >>=-some (get "item" fields) _ body k₁ in
      let (s₂, q₂, k₂) = >>=-some (item_of p v₂) _ body h₂ in
      let (v₃, _, h₃) = >>=-some (get "amount" fields) _ body k₂ in
      let (d, q₃, k₃) = >>=-some (amount_of p v₃) _ body h₃ in
      subst (λ b. IsStorable (order_of id at b)) (ground (arith, k₃))
        (record {
          customer = documented.text-bounds 1 64 v₁ s₁ q₁;
          item = documented.text-bounds 1 255 v₂ s₂ q₂;
          price = price v₃ d q₃;
        })
  validate-IsStorable null body h id at = absurd (ground arith)
  validate-IsStorable (bool b) body h id at = absurd (ground arith)
  validate-IsStorable (num n) body h id at = absurd (ground arith)
  validate-IsStorable (real s) body h id at = absurd (ground arith)
  validate-IsStorable (str s) body h id at = absurd (ground arith)
  validate-IsStorable (arr vs) body h id at = absurd (ground arith)

  module _ (f : Formats) (db : Database) (host : Host) (c : Config) where
    Posted-IsStorable :
        (v : Value) (body : OrderCreate) (w w' : World Tables (Unit {0})) (o : Outcome Order)
        → validate p v ≡ some body
        → Posted f c body w o w'
        → All IsStorable w.tables.orders
        → All IsStorable w'.tables.orders
    Posted-IsStorable v body w w' o accepted (stored id event_id at later _ t _ _ _) h =
        rw t (
          All-append IsStorable w.tables.orders _ h (validate-IsStorable v body accepted id at, tt))
    Posted-IsStorable v body w w' o accepted (refused e _ t) h = rw t h

    post_order-IsStorable :
        (v : Value) (w : World Tables (Unit {0}))
        → All IsStorable w.tables.orders
        → All IsStorable (post_order f db host c p v w).1.tables.orders
    unfolding post_order
    post_order-IsStorable v w h = elim (Option-cases (validate p v)) [
      | inl invalid ↦ rw invalid h
      | inr (body, valid) ↦
          rw valid (Posted-IsStorable v body w _ _ valid (create_order-Posted f db host c body w) h)
    ]

    -- Whatever bodies are posted, and whatever the database answers: if every stored order has a
    -- customer, an item and a price for its columns, then so afterwards, where pydantic's constraints
    -- mean what it documents. So no order is ever stored for free, or with a part of a cent.
    pub post_orders-IsStorable :
        (vs : List Value) (w : World Tables (Unit {0}))
        → All IsStorable w.tables.orders
        → All IsStorable (post_orders f db host c p vs w).tables.orders
    unfolding post_orders
    post_orders-IsStorable [] w h = h
    post_orders-IsStorable (v ∷ vs) w h = post_orders-IsStorable vs _ (post_order-IsStorable v w h)

    module _ (v : Value) (w : World Tables (Unit {0})) where
      -- Where the database answers, the minted ids are fresh, the fault injection is off and
      -- pydantic's constraints mean what it documents: a body that pydantic refuses is answered with
      -- 422 and nothing is written. A body that it accepts is stored with its event, and the stored
      -- order is the response, unless its customer or item has a NUL: such a body is answered with 503,
      -- and nothing is written. No accepted body is too long or too expensive for the columns.
      pub post_order-answers :
          IsServed db host w
          → c.break_outbox_insert ≡ false
          → ((validate p v ≡ none) × (post_order f db host c p v w ≡ (unprocessable, w)))
            ⊎ (((body : OrderCreate) × (validate p v ≡ some body)
                  × (with_nul body ≡ false)
                  × ((post_order f db host c p v w).0 ≡ answered (ok (order_from host w body)))
                  × ((post_order f db host c p v w).1.tables
                      ≡ with_pair (order_from host w body) (event_from f host c w body) w.tables))
                ⊎ ((body : OrderCreate) × (validate p v ≡ some body)
                    × (with_nul body ≡ true)
                    × ((post_order f db host c p v w).0 ≡ answered (raise (http_exception 503)))
                    × ((post_order f db host c p v w).1.tables ≡ w.tables)))
      unfolding post_order
      post_order-answers served whole = elim (Option-cases (validate p v)) [
        | inl invalid ↦ inl (invalid, rw invalid refl)
        | inr (body, valid) ↦
            let storable = validate-IsStorable v body valid (host.uuid4 w.tick) (host.now w.tick) in
            let columns = takes_order-nul (order_from host w body) storable in
            elim (Bool-cases (with_nul body)) [
              | inr plain ↦
                  let (response, written) =
                    create_order-created f db host c body w served (ground (arith, columns, plain))
                      whole in
                  inr (inl (body, valid, plain, rw (valid, response) refl, rw valid written))
              | inl nul ↦
                  let (response, unwritten) =
                    create_order-refused f db host c body w served (ground (arith, columns, nul)) in
                  inr (inr (body, valid, nul, rw (valid, response) refl, rw valid unwritten))
            ]
      ]

module _ (f : Formats) (db : Database) (host : Host) (c : Config) (p : Pydantic) where
  -- A field that OrderCreate does not have, such as an `id` or a `created_at`, changes neither the
  -- response nor what is stored. It does not make the body invalid.
  pub post_order_extra :
      (k : String) (extra : Value) (fields : Fields) (w : World Tables (Unit {0}))
      → k ≢ "customer_id"
      → k ≢ "item"
      → k ≢ "amount"
      → post_order f db host c p (obj (entry k extra fields)) w
        ≡ post_order f db host c p (obj fields) w
  unfolding post_order validate get
  post_order_extra k extra fields w h₁ h₂ h₃ =
      ground (arith, h₁, h₂, h₃, eq_iff k "customer_id", eq_iff k "item", eq_iff k "amount")

  -- A valid body is the endpoint's.
  pub post_order-valid :
      (v : Value) (body : OrderCreate) (w : World Tables (Unit {0}))
      → validate p v ≡ some body
      → (post_order f db host c p v w).1 ≡ (create_order f db host c body w).1
  unfolding post_order
  post_order-valid v body w valid = rw valid refl
