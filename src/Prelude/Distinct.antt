-- ===== src/Prelude/Distinct.antt =====
-- Lists without repetition, as keys of rows.
use Prim.Native.Nat.{ℕ}
use mathlib.Core.Path.{◌≡◌, refl, sym, ap, subst, ◌∙◌}
use native.Mathlib.Omega.{arith}
use mathlib.Core.Bool.{Bool, true, false}
use mathlib.Core.Logic.{◌≢◌, inl, inr}
use mathlib.Core.List.{List, [], ◌∷◌, ◌++◌, map}
use outbox_fanout.Prelude.Tests.{Bool-cases, ◌==◌}
use outbox_fanout.Prelude.Lists.{select, any}
use outbox_fanout.Prelude.Predicates.{All, All-append, In}

abbrev pub Distinct : {A : Type 0} → List A → Type 0
Distinct [] = Unit
Distinct (x ∷ xs) = All (λ y. x ≢ y) xs × Distinct xs

module _ {A : Type 0} (key : A → ℕ) where
  fresh-In : (n : ℕ) (xs : List A) (a : A) → All (λ y. n ≢ y) (map key xs) → In a xs → n ≢ key a
  fresh-In n [] a h m = absurd m
  fresh-In n (x ∷ xs) a h (inl here) = λ e. h.0 (e ∙ ap key here)
  fresh-In n (x ∷ xs) a h (inr there) = fresh-In n xs a h.1 there

  -- Two rows under one key are the same row.
  pub Distinct-eq :
      (xs : List A) (a b : A) → Distinct (map key xs) → In a xs → In b xs → key a ≡ key b → a ≡ b
  Distinct-eq [] a b d m n e = absurd m
  Distinct-eq (x ∷ xs) a b d (inl p) (inl q) e = p ∙ sym q
  Distinct-eq (x ∷ xs) a b d (inl p) (inr n) e =
      absurd (fresh-In (key x) xs b d.0 n (sym (ap key p) ∙ e))
  Distinct-eq (x ∷ xs) a b d (inr m) (inl q) e =
      absurd (fresh-In (key x) xs a d.0 m (sym (e ∙ ap key q)))
  Distinct-eq (x ∷ xs) a b d (inr m) (inr n) e = Distinct-eq xs a b d.1 m n e

  -- A test that only the row under one key can pass selects that row alone.
  select-nothing :
      (p : A → Bool) (n : ℕ) (xs : List A)
      → All (λ y. n ≢ y) (map key xs)
      → ((x : A) → p x ≡ true → key x ≡ n)
      → select p xs ≡ []
  select-nothing p n [] fresh only = refl
  select-nothing p n (x ∷ xs) fresh only = elim (Bool-cases (p x)) [
    | inl pass ↦ absurd (fresh.0 (sym (only x pass)))
    | inr fail ↦ rw fail (select-nothing p n xs fresh.1 only)
  ]

  pub select_unique :
      (p : A → Bool) (xs : List A) (e : A)
      → Distinct (map key xs)
      → In e xs
      → p e ≡ true
      → ((x : A) → p x ≡ true → key x ≡ key e)
      → select p xs ≡ e ∷ []
  select_unique p [] e d m h only = absurd m
  select_unique p (x ∷ xs) e d (inl here) h only =
      rw (← here, h)
        (ap (◌∷◌ e) (
          select-nothing p (key e) xs
            (subst (λ z. All (λ y. key z ≢ y) (map key xs)) (sym here) d.0) only))
  select_unique p (x ∷ xs) e d (inr there) h only = elim (Bool-cases (p x)) [
    | inl pass ↦ absurd (fresh-In (key x) xs e d.0 there (only x pass))
    | inr fail ↦ rw fail (select_unique p xs e d.1 there h only)
  ]

  -- A test for a key that no row passes tells that no row has the key.
  pub absent :
      (n : ℕ) (xs : List A) → any (λ x. key x == n) xs ≡ false → All (λ y. y ≢ n) (map key xs)
  absent n [] h = tt
  absent n (x ∷ xs) h = elim (Bool-cases (key x == n)) [
    | inl same ↦ absurd (ground arith)
    | inr other ↦ (λ e. ground arith, absent n xs (rw other at h))
  ]

pub Distinct-snoc :
    (n : ℕ) (xs : List ℕ) → Distinct xs → All (λ y. y ≢ n) xs → Distinct (xs ++ n ∷ [])
Distinct-snoc n [] d h = (tt, tt)
Distinct-snoc n (x ∷ xs) d h = (All-append _ xs _ d.0 (h.0, tt), Distinct-snoc n xs d.1 h.1)
