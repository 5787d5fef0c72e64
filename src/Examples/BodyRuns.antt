-- ===== src/Examples/BodyRuns.antt =====
-- Request bodies under a reader of texts and natural numbers that keeps to the documented constraints.
use Prim.Native.Nat.{◌^◌}
use outbox_fanout.Prelude.{
  str_eq, eq_iff, false, true, ◌≢◌, ℕ, ◌*◌, ◌-◌, ◌≤◌, ◌<◌, String, ◌&&◌, ◌≡◌, ◌⊎◌, refl, none, some,
  Option, [], ◌∷◌, arith, chars, leb, ltb, if◌then◌else◌,
}
use outbox_fanout.Prelude.Predicates.{All}
use outbox_fanout.Outcome.{ok, raise, http_exception}
use outbox_fanout.Json.{Value, Fields, obj, entry, empty_object, str, num}
use outbox_fanout.Formats.{Decimal}
use outbox_fanout.Config.{defaults}
use outbox_fanout.Order.Service.{OrderCreate}
use outbox_fanout.Order.Validation.{
  Pydantic, IsDocumented, validate, unprocessable, answered, post_order, post_orders,
}
use outbox_fanout.Order.Atomicity.{with_pair}
use outbox_fanout.Order.Accepted.{
  IsStorable, with_nul, order_from, event_from, post_orders-IsStorable, post_order-answers,
  post_order_extra,
}
use outbox_fanout.Examples.Notation.{notation}
use outbox_fanout.Examples.Setting.{calm, host, no_orders}

abbrev text_between : ℕ → ℕ → Value → Option String
text_between least most (str s) = if leb least (chars s) && leb (chars s) most then some s else none
text_between least most v = none

abbrev number_between : ℕ → ℕ → ℕ → Value → Option Decimal
number_between gt digits places (num n) =
    if ltb gt n && ltb n (10 ^ (digits - places))
    then some (record { coefficient = n; places = 0 })
    else none
number_between gt digits places v = none

abbrev pub reader : Pydantic
reader = record { text_field = text_between; decimal_field = number_between }

text_between-bounds :
    (least most : ℕ) (v : Value) (s : String)
    → text_between least most v ≡ some s
    → (least ≤ chars s) × (chars s ≤ most)
text_between-bounds least most (str r) s h = ground (arith, h)
text_between-bounds least most _ s h = absurd (ground arith)

module _ (gt digits places : ℕ) where
  number_between-bounds :
      (v : Value) (d : Decimal)
      → number_between gt digits places v ≡ some d
      → (gt < d.coefficient) × (d.coefficient < 10 ^ (digits - places)) × (d.places ≡ 0)
  number_between-bounds (num n) d h = ground (arith, h)
  number_between-bounds _ d h = absurd (ground arith)

pub documented : IsDocumented reader
documented = record {
  text-bounds = text_between-bounds;
  decimal-gt = λ gt digits places v d h.
      let (above, below, whole) = number_between-bounds gt digits places v d h in
      rw whole (omega (arith, above));
  decimal-digits = λ gt digits places v d h.
      let (above, below, whole) = number_between-bounds gt digits places v d h in
      rw whole (omega (arith, below));
  decimal-places = λ gt digits places v d h.
      let (above, below, whole) = number_between-bounds gt digits places v d h in
      (d.coefficient * 10 ^ places, rw whole (omega arith));
}

abbrev pub body : Fields
body =
    entry "customer_id" (str "ann")
      (entry "item" (str "lamp") (entry "amount" (num 5) empty_object))

-- Without an amount.
abbrev short_body : Fields
short_body = entry "customer_id" (str "ann") (entry "item" (str "lamp") empty_object)

post_orders-IsStorable_example :
    All IsStorable
      (post_orders notation calm host defaults reader
        (obj body ∷ obj short_body ∷ [])
        no_orders).tables.orders
post_orders-IsStorable_example =
    post_orders-IsStorable reader documented notation calm host defaults
      (obj body ∷ obj short_body ∷ []) no_orders tt

post_order-answers_example :
    ((validate reader (obj body) ≡ none)
      × (post_order notation calm host defaults reader (obj body) no_orders
          ≡ (unprocessable, no_orders)))
    ⊎ (((accepted : OrderCreate) × (validate reader (obj body) ≡ some accepted)
          × (with_nul accepted ≡ false)
          × ((post_order notation calm host defaults reader (obj body) no_orders).0
              ≡ answered (ok (order_from host no_orders accepted)))
          × ((post_order notation calm host defaults reader (obj body) no_orders).1.tables
              ≡ with_pair
                  (order_from host no_orders accepted)
                  (event_from notation host defaults no_orders accepted)
                  no_orders.tables))
        ⊎ ((accepted : OrderCreate) × (validate reader (obj body) ≡ some accepted)
            × (with_nul accepted ≡ true)
            × ((post_order notation calm host defaults reader (obj body) no_orders).0
                ≡ answered (raise (http_exception 503)))
            × ((post_order notation calm host defaults reader (obj body) no_orders).1.tables
                ≡ no_orders.tables)))
post_order-answers_example =
    post_order-answers reader documented notation calm host defaults (obj body) no_orders
      (record { answers = λ n. refl; fresh_order = refl; fresh_event = refl }) refl

different : (s t : String) → str_eq s t ≡ false → s ≢ t
different s t h p = ground (arith, h, (eq_iff s t).1 p)

post_order_extra_example :
    post_order notation calm host defaults reader (obj (entry "id" (num 7) body)) no_orders
    ≡ post_order notation calm host defaults reader (obj body) no_orders
post_order_extra_example =
    post_order_extra notation calm host defaults reader "id" (num 7) body no_orders
      (different "id" "customer_id" refl) (different "id" "item" refl)
      (different "id" "amount" refl)
