-- ===== src/Prelude/Predicates.antt =====
-- Predicates on lists by recursion, and their laws.
use mathlib.Core.Path.{◌≡◌, refl, sym, subst}
use mathlib.Core.Logic.{◌⊎◌, inl, inr}
use mathlib.Core.Bool.{Bool, true, false}
use mathlib.Core.List.{List, [], ◌∷◌, ◌++◌, map}
use native.Mathlib.Omega.{arith}
use outbox_fanout.Prelude.Tests.{Bool-cases, if◌then◌else◌}
use outbox_fanout.Prelude.Lists.{select, update}

module _ {ℓ κ} {A : Type ℓ} where
  -- Every element has the property.
  abbrev pub All : (A → Type κ) → List A → Type κ
  All P [] = Unit
  All P (x ∷ xs) = P x × All P xs

  pub All-append :
      (P : A → Type κ) (front rest : List A) → All P front → All P rest → All P (front ++ rest)
  All-append P [] rest f r = r
  All-append P (x ∷ front) rest (here, f) r = (here, All-append P front rest f r)

  pub All-select : (P : A → Type κ) (p : A → Bool) (xs : List A) → All P xs → All P (select p xs)
  All-select P p [] h = h
  All-select P p (x ∷ xs) h = ground (arith, All-select P p xs h.1)

  pub All-map :
      {Q : A → Type κ} (P : A → Type κ) (xs : List A) → ((a : A) → P a → Q a) → All P xs → All Q xs
  All-map P [] f h = h
  All-map P (x ∷ xs) f h = (f x h.0, All-map P xs f h.1)

  pub All-map₂ :
      {R : A → Type κ} (P Q : A → Type κ) (xs : List A)
      → ((a : A) → P a → Q a → R a)
      → All P xs
      → All Q xs
      → All R xs
  All-map₂ P Q [] f h k = h
  All-map₂ P Q (x ∷ xs) f h k = (f x h.0 k.0, All-map₂ P Q xs f h.1 k.1)

pub All-of_map :
    {A B : Type 0} (P : B → Type 0) (h : A → B) (xs : List A)
    → All (λ a. P (h a)) xs
    → All P (map h xs)
All-of_map P h [] k = k
All-of_map P h (x ∷ xs) k = (k.0, All-of_map P h xs k.1)

pub All-under_map :
    {A B : Type 0} (P : B → Type 0) (h : A → B) (xs : List A)
    → All P (map h xs)
    → All (λ a. P (h a)) xs
All-under_map P h [] k = k
All-under_map P h (x ∷ xs) k = (k.0, All-under_map P h xs k.1)

module _ {A : Type 0} where
  -- `a` stands somewhere in the list.
  abbrev pub In : A → List A → Type 0
  In a [] = ⊥
  In a (x ∷ xs) = (a ≡ x) ⊎ In a xs

  pub In-append_right : (a : A) (xs ys : List A) → In a ys → In a (xs ++ ys)
  In-append_right a [] ys h = h
  In-append_right a (x ∷ xs) ys h = inr (In-append_right a xs ys h)

  -- A selected row is a row of the table that passes the test.
  pub In-select : (p : A → Bool) (xs : List A) (a : A) → In a (select p xs) → In a xs × (p a ≡ true)
  In-select p [] a h = absurd h
  In-select p (x ∷ xs) a h = elim (Bool-cases (p x)) [
    | inl pass ↦ elim (rw pass at h) [
      | inl here ↦ (inl here, rw here pass)
      | inr there ↦ let (m, q) = In-select p xs a there in (inr m, q)
    ]
    | inr fail ↦ let (m, q) = In-select p xs a (rw fail at h) in (inr m, q)
  ]

  -- A row that passes the test is selected.
  pub select-In : (p : A → Bool) (xs : List A) (a : A) → In a xs → p a ≡ true → In a (select p xs)
  select-In p [] a h q = absurd h
  select-In p (x ∷ xs) a (inl here) q = rw (← here, q) (inl refl)
  select-In p (x ∷ xs) a (inr there) q = elim (Bool-cases (p x)) [
    | inl pass ↦ rw pass (inr (select-In p xs a there q))
    | inr fail ↦ rw fail (select-In p xs a there q)
  ]

  pub All-In : (P : A → Type 0) (xs : List A) (a : A) → All P xs → In a xs → P a
  All-In P [] a h m = absurd m
  All-In P (x ∷ xs) a h (inl here) = subst P (sym here) h.0
  All-In P (x ∷ xs) a h (inr there) = All-In P xs a h.1 there

  pub All-of_In : {P : A → Type 0} (xs : List A) → ((a : A) → In a xs → P a) → All P xs
  All-of_In [] h = tt
  All-of_In (x ∷ xs) h = (h x (inl refl), All-of_In xs (λ a m. h a (inr m)))

  -- An update keeps a property of all rows if it keeps that of each row that it changes.
  pub All-update :
      {P Q : A → Type 0} (p : A → Bool) (f : A → A) (xs : List A)
      → ((a : A) → p a ≡ true → P a → Q (f a))
      → ((a : A) → p a ≡ false → P a → Q a)
      → All P xs
      → All Q (update p f xs)
  All-update p f [] change stay h = tt
  All-update {P} {Q} p f (x ∷ xs) change stay h =
      (split (p x) refl, All-update p f xs change stay h.1)
    where
      split : (b : Bool) → p x ≡ b → Q (if b then f x else x)
      split true e = change x e h.0
      split false e = stay x e h.0

  pub update-In :
      (p : A → Bool) (f : A → A) (xs : List A) (a : A)
      → In a xs
      → p a ≡ true
      → In (f a) (update p f xs)
  update-In p f [] a m h = absurd m
  update-In p f (x ∷ xs) a (inl here) h = rw (← here, h) (inl refl)
  update-In p f (x ∷ xs) a (inr there) h = inr (update-In p f xs a there h)
