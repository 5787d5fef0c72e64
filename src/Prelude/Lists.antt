-- ===== src/Prelude/Lists.antt =====
-- Lists measured by native numbers, and filtered by Boolean tests.
use Prim.Native.Nat.{ℕ, zero, suc, ◌+◌, ◌≤◌, min}
use mathlib.Core.Path.{◌≡◌, refl, ap, ap₂}
use mathlib.Core.Logic.{◌⊎◌, inl, inr}
use mathlib.Core.Bool.{Bool, true, false}
use mathlib.Core.List.{List, [], ◌∷◌, ◌++◌, map}
use native.Mathlib.Omega.{arith}
use outbox_fanout.Prelude.Tests.{if◌then◌else◌}

abbrev pub one_if : Bool → ℕ
one_if true = 1
one_if false = 0

module _ {ℓ} {A : Type ℓ} where
  abbrev pub length : List A → ℕ
  length [] = 0
  length (x ∷ xs) = suc (length xs)

  abbrev pub take : ℕ → List A → List A
  take zero xs = []
  take (suc n) [] = []
  take (suc n) (x ∷ xs) = x ∷ take n xs

  -- The rows behind those that `take` takes.
  abbrev pub drop : ℕ → List A → List A
  drop zero xs = xs
  drop (suc n) [] = []
  drop (suc n) (x ∷ xs) = drop n xs

  pub take-all : (n : ℕ) (xs : List A) → length xs ≤ n → take n xs ≡ xs
  take-all zero [] h = refl
  take-all zero (x ∷ xs) h = absurd (omega (arith, h))
  take-all (suc n) [] h = refl
  take-all (suc n) (x ∷ xs) h = ap (λ ys. x ∷ ys) (take-all n xs (omega (arith, h)))

  pub take-drop : (n : ℕ) (xs : List A) → take n xs ++ drop n xs ≡ xs
  take-drop zero xs = refl
  take-drop (suc n) [] = refl
  take-drop (suc n) (x ∷ xs) = ap (λ ys. x ∷ ys) (take-drop n xs)

  -- Rows are left out only where as many as asked for are taken.
  pub drop-cases : (n : ℕ) (xs : List A) → (drop n xs ≡ []) ⊎ (length (take n xs) ≡ n)
  drop-cases zero xs = inr refl
  drop-cases (suc n) [] = inl refl
  drop-cases (suc n) (x ∷ xs) = elim (drop-cases n xs) [
    | inl none_left ↦ inl none_left
    | inr full ↦ inr (ap suc full)
  ]

  -- The rows that pass a test, in their order.
  abbrev pub select : (A → Bool) → List A → List A
  select p [] = []
  select p (x ∷ xs) = if p x then x ∷ select p xs else select p xs

  -- Whether some row passes a test.
  abbrev pub any : (A → Bool) → List A → Bool
  any p [] = false
  any p (x ∷ xs) = if p x then true else any p xs

  -- How many elements pass a test.
  abbrev pub count : (A → Bool) → List A → ℕ
  count p [] = 0
  count p (x ∷ xs) = one_if (p x) + count p xs

  -- The rows that pass a test are replaced, the others stay.
  abbrev pub update : (A → Bool) → (A → A) → List A → List A
  update p f [] = []
  update p f (x ∷ xs) = (if p x then f x else x) ∷ update p f xs

  pub length-append : (xs ys : List A) → length (xs ++ ys) ≡ length xs + length ys
  length-append [] ys = omega arith
  length-append (x ∷ xs) ys = omega (arith, length-append xs ys)

  pub length-take : (n : ℕ) (xs : List A) → length (take n xs) ≡ min n (length xs)
  length-take zero xs = omega arith
  length-take (suc n) [] = omega arith
  length-take (suc n) (x ∷ xs) = omega (arith, length-take n xs)

  pub length-update : (p : A → Bool) (f : A → A) (xs : List A) → length (update p f xs) ≡ length xs
  length-update p f [] = refl
  length-update p f (x ∷ xs) = omega (arith, length-update p f xs)

module _ {ℓ κ} {A : Type ℓ} {B : Type κ} where
  -- An update that keeps a column of each row that it changes keeps the column.
  pub map-update :
      (g : A → B) (p : A → Bool) (f : A → A) (xs : List A)
      → ((a : A) → g (f a) ≡ g a)
      → map g (update p f xs) ≡ map g xs
  map-update g p f [] same = refl
  map-update g p f (x ∷ xs) same = ap₂ ◌∷◌ (kept (p x)) (map-update g p f xs same)
    where
      kept : (b : Bool) → g (if b then f x else x) ≡ g x
      kept true = same x
      kept false = refl

module _ {ℓ} {A : Type ℓ} where
  -- Two updates of the same rows are one.
  pub update-update :
      (p : A → Bool) (f g : A → A) (xs : List A)
      → ((a : A) → p (f a) ≡ p a)
      → update p g (update p f xs) ≡ update p (λ a. g (f a)) xs
  update-update p f g [] same = refl
  update-update p f g (x ∷ xs) same = ap₂ ◌∷◌ (twice (p x) refl) (update-update p f g xs same)
    where
      twice :
          (b : Bool)
          → p x ≡ b
          → (if p (if b then f x else x) then g (if b then f x else x) else (if b then f x else x))
            ≡ (if b then g (f x) else x)
      twice true e = rw (same x, e) refl
      twice false e = rw e refl
