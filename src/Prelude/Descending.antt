-- ===== src/Prelude/Descending.antt =====
-- ORDER BY a number, descending.
use Prim.Native.Nat.{ℕ, zero, suc, ◌≤◌}
use mathlib.Core.Logic.{inl, inr}
use mathlib.Core.List.{List, [], ◌∷◌, ◌++◌, reverse, reverse-cons}
use outbox_fanout.Prelude.Lists.{take, drop}
use outbox_fanout.Prelude.Predicates.{All, All-map₂, All-append, All-of_In, In}
use outbox_fanout.Prelude.Sort.{IsOrdered, take-All}

module _ {A : Type 0} where
  pub All-reverse : (P : A → Type 0) (xs : List A) → All P xs → All P (reverse xs)
  All-reverse P [] h = tt
  All-reverse P (x ∷ xs) h =
      rw (reverse-cons x xs) (All-append P (reverse xs) (x ∷ []) (All-reverse P xs h.1) (h.0, tt))

  pub In-append_left : (a : A) (xs ys : List A) → In a xs → In a (xs ++ ys)
  In-append_left a [] ys m = absurd m
  In-append_left a (x ∷ xs) ys (inl here) = inl here
  In-append_left a (x ∷ xs) ys (inr there) = inr (In-append_left a xs ys there)

module _ {A : Type 0} (key : A → ℕ) where
  -- Each row is at least as recent as those behind it.
  abbrev pub IsDescending : List A → Type 0
  IsDescending [] = Unit
  IsDescending (x ∷ xs) = All (λ y. key y ≤ key x) xs × IsDescending xs

  snoc-IsDescending :
      (xs : List A) (a : A)
      → IsDescending xs
      → All (λ x. key a ≤ key x) xs
      → IsDescending (xs ++ (a ∷ []))
  snoc-IsDescending [] a h k = (tt, tt)
  snoc-IsDescending (x ∷ xs) a h k =
      (All-append (λ y. key y ≤ key x) xs (a ∷ []) h.0 (k.0, tt), snoc-IsDescending xs a h.1 k.1)

  pub reverse-IsDescending : (xs : List A) → IsOrdered key xs → IsDescending (reverse xs)
  reverse-IsDescending [] h = tt
  reverse-IsDescending (x ∷ xs) h = rw (reverse-cons x xs) (
      snoc-IsDescending (reverse xs) x (reverse-IsDescending xs h.1)
        (All-reverse (λ y. key x ≤ key y) xs h.0))

  pub take-IsDescending : (n : ℕ) (xs : List A) → IsDescending xs → IsDescending (take n xs)
  take-IsDescending zero xs h = tt
  take-IsDescending (suc n) [] h = tt
  take-IsDescending (suc n) (x ∷ xs) h =
      (take-All (λ y. key y ≤ key x) n xs h.0, take-IsDescending n xs h.1)

  drop-All : (P : A → Type 0) (n : ℕ) (xs : List A) → All P xs → All P (drop n xs)
  drop-All P zero xs h = h
  drop-All P (suc n) [] h = h
  drop-All P (suc n) (x ∷ xs) h = drop-All P n xs h.1

  -- A row that `take` leaves out of a descending list is not more recent than any that it takes.
  pub drop-older :
      (n : ℕ) (xs : List A)
      → IsDescending xs
      → All (λ a. All (λ b. key a ≤ key b) (take n xs)) (drop n xs)
  drop-older zero xs h = All-of_In xs (λ a m. tt)
  drop-older (suc n) [] h = tt
  drop-older (suc n) (x ∷ xs) h =
      All-map₂ _ _ (drop n xs) (λ a p q. (p, q)) (drop-All (λ y. key y ≤ key x) n xs h.0)
        (drop-older n xs h.1)
