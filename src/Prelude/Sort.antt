-- ===== src/Prelude/Sort.antt =====
-- ORDER BY a number, ascending. Rows of equal keys keep the order of the table.
use Prim.Native.Nat.{ℕ, zero, suc, ◌≤◌}
use mathlib.Core.Path.{◌≡◌, refl}
use mathlib.Core.Logic.{◌⊎◌, inl, inr}
use mathlib.Core.List.{List, [], ◌∷◌, Perm}
use mathlib.Core.List.Perm
use native.Mathlib.Omega.{arith}
use outbox_fanout.Prelude.Tests.{leb, leb→le, if◌then◌else◌, Bool-cases}
use outbox_fanout.Prelude.Lists.{length, take}
use outbox_fanout.Prelude.Predicates.{All, All-map, All-In, In}

module _ {A : Type 0} (key : A → ℕ) where
  abbrev pub insert_by : A → List A → List A
  insert_by a [] = a ∷ []
  insert_by a (x ∷ xs) = if leb (key a) (key x) then a ∷ x ∷ xs else x ∷ insert_by a xs

  abbrev pub order_by : List A → List A
  order_by [] = []
  order_by (x ∷ xs) = insert_by x (order_by xs)

  -- Each row is at most as recent as those behind it.
  abbrev pub IsOrdered : List A → Type 0
  IsOrdered [] = Unit
  IsOrdered (x ∷ xs) = All (λ y. key x ≤ key y) xs × IsOrdered xs

  insert_by-Perm : (a : A) (xs : List A) → Perm (insert_by a xs) (a ∷ xs)
  insert_by-Perm a [] = Perm.refl (a ∷ [])
  insert_by-Perm a (x ∷ xs) = elim (Bool-cases (leb (key a) (key x))) [
    | inl le ↦ rw le (Perm.refl (a ∷ x ∷ xs))
    | inr gt ↦ rw gt (Perm.trans (Perm.cons x (insert_by-Perm a xs)) (Perm.swap a x xs))
  ]

  -- Sorting adds no row and loses none.
  pub order_by-Perm : (xs : List A) → Perm (order_by xs) xs
  order_by-Perm [] = Perm.refl []
  order_by-Perm (x ∷ xs) =
      Perm.trans (insert_by-Perm x (order_by xs)) (Perm.cons x (order_by-Perm xs))

  -- Sorting loses no row.
  insert_by-In : (a : A) (xs : List A) (b : A) → In b (a ∷ xs) → In b (insert_by a xs)
  insert_by-In a [] b m = m
  insert_by-In a (x ∷ xs) b m = elim (Bool-cases (leb (key a) (key x))) [
    | inl le ↦ rw le m
    | inr gt ↦ rw gt (swapped (insert_by-In a xs b) m)
  ]
    where
      swapped :
          (In b (a ∷ xs) → In b (insert_by a xs)) → In b (a ∷ x ∷ xs) → In b (x ∷ insert_by a xs)
      swapped rest (inl p) = inr (rest (inl p))
      swapped rest (inr (inl p)) = inl p
      swapped rest (inr (inr q)) = inr (rest (inr q))

  pub order_by-In : (xs : List A) (b : A) → In b xs → In b (order_by xs)
  order_by-In [] b m = m
  order_by-In (x ∷ xs) b (inl p) = insert_by-In x (order_by xs) b (inl p)
  order_by-In (x ∷ xs) b (inr m) = insert_by-In x (order_by xs) b (inr (order_by-In xs b m))

  insert_by-All : (P : A → Type 0) (a : A) (xs : List A) → P a → All P xs → All P (insert_by a xs)
  insert_by-All P a [] h hs = (h, tt)
  insert_by-All P a (x ∷ xs) h hs = elim (Bool-cases (leb (key a) (key x))) [
    | inl le ↦ rw le (h, hs)
    | inr gt ↦ rw gt (hs.0, insert_by-All P a xs h hs.1)
  ]

  -- Sorting adds no row.
  pub order_by-All : (P : A → Type 0) (xs : List A) → All P xs → All P (order_by xs)
  order_by-All P [] h = tt
  order_by-All P (x ∷ xs) h = insert_by-All P x (order_by xs) h.0 (order_by-All P xs h.1)

  le-All :
      (a x : A) (xs : List A)
      → key a ≤ key x
      → All (λ y. key x ≤ key y) xs
      → All (λ y. key a ≤ key y) xs
  le-All a x xs h hs = All-map _ xs (λ y k. omega arith) hs

  insert_by-IsOrdered : (a : A) (xs : List A) → IsOrdered xs → IsOrdered (insert_by a xs)
  insert_by-IsOrdered a [] h = (tt, tt)
  insert_by-IsOrdered a (x ∷ xs) h = elim (Bool-cases (leb (key a) (key x))) [
    | inl le ↦ rw le ((leb→le _ _ le, le-All a x xs (leb→le _ _ le) h.0), h)
    | inr gt ↦
        rw gt
          (insert_by-All (λ y. key x ≤ key y) a xs (ground arith) h.0, insert_by-IsOrdered a xs h.1)
  ]

  pub order_by-IsOrdered : (xs : List A) → IsOrdered (order_by xs)
  order_by-IsOrdered [] = tt
  order_by-IsOrdered (x ∷ xs) = insert_by-IsOrdered x (order_by xs) (order_by-IsOrdered xs)

  -- A row of an ordered list is among the first `n`, or is at least as recent as each of them.
  pub take-fair :
      (n : ℕ) (xs : List A) (a : A)
      → IsOrdered xs
      → In a xs
      → In a (take n xs) ⊎ All (λ b. key b ≤ key a) (take n xs)
  take-fair zero xs a o m = inr tt
  take-fair (suc n) [] a o m = absurd m
  take-fair (suc n) (x ∷ xs) a o (inl here) = inl (inl here)
  take-fair (suc n) (x ∷ xs) a o (inr there) = elim (take-fair n xs a o.1 there) [
    | inl found ↦ inl (inr found)
    | inr older ↦ inr (All-In (λ y. key x ≤ key y) xs a o.0 there, older)
  ]

module _ {A : Type 0} where
  pub take-All : (P : A → Type 0) (n : ℕ) (xs : List A) → All P xs → All P (take n xs)
  take-All P zero xs h = tt
  take-All P (suc n) [] h = tt
  take-All P (suc n) (x ∷ xs) h = (h.0, take-All P n xs h.1)

  pub take-IsOrdered :
      (key : A → ℕ) (n : ℕ) (xs : List A) → IsOrdered key xs → IsOrdered key (take n xs)
  take-IsOrdered key zero xs h = tt
  take-IsOrdered key (suc n) [] h = tt
  take-IsOrdered key (suc n) (x ∷ xs) h =
      (take-All (λ y. key x ≤ key y) n xs h.0, take-IsOrdered key n xs h.1)

length-insert_by :
    {A : Type 0} (key : A → ℕ) (a : A) (xs : List A) → length (insert_by key a xs) ≡ suc (length xs)
length-insert_by key a [] = refl
length-insert_by key a (x ∷ xs) = ground (arith, length-insert_by key a xs)

pub length-order_by :
    {A : Type 0} (key : A → ℕ) (xs : List A) → length (order_by key xs) ≡ length xs
length-order_by key [] = refl
length-order_by key (x ∷ xs) =
    omega (arith, length-insert_by key x (order_by key xs), length-order_by key xs)
