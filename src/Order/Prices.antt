-- ===== src/Order/Prices.antt =====
-- The amounts that pydantic accepts, against the NUMERIC(12, 2) column of order/models.py.
use Prim.Native.Nat.{◌^◌, zero}
use native.Mathlib.Nat.{lt_of_mul-lt-mul_right, mul-le-mul_right}
use outbox_fanout.Prelude.{ℕ, suc, ◌+◌, ◌*◌, ◌≤◌, ◌<◌, true, ◌≡◌, arith}
use outbox_fanout.Formats.{Decimal}
use outbox_fanout.Tables.{is_in_range}

-- An amount to pay that NUMERIC(12, 2) holds as it is: above 0, below 10^10, and without a part of a
-- cent.
pub record IsPrice (d : Decimal) : Type 0 where
  pub above : 0 < d.coefficient
  pub below : d.coefficient < 10 ^ 10 * 10 ^ d.places
  pub cents : (n : ℕ) × (d.coefficient * 100 ≡ n * 10 ^ d.places)

pow_pos : (n : ℕ) → 0 < 10 ^ n
pow_pos zero = omega arith
pow_pos (suc n) = omega (arith, pow_pos n)

-- A number of `n` hundredths, `q` of which a unit of it has.
hundredths :
    (a n q : ℕ) → 0 < q → a < 10 ^ 10 * q → a * 100 ≡ n * q → 2 * 100 * a + q < 2 * 10 ^ 12 * q
hundredths a n q positive below cents =
    let few : n < 10 ^ 12 = lt_of_mul-lt-mul_right q (omega (arith, below, cents)) in
    let bound : suc n * q ≤ 10 ^ 12 * q = mul-le-mul_right q few in
    omega (arith, cents, positive, bound)

-- An amount to pay is in the range of its column.
pub price-range : (d : Decimal) → IsPrice d → is_in_range d ≡ true
price-range d p =
    ground (
      arith,
      hundredths d.coefficient p.cents.0 (10 ^ d.places) (pow_pos d.places) p.below p.cents.1,
    )
