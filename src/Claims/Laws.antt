-- ===== src/Claims/Laws.antt =====
-- The cases of INSERT … ON CONFLICT DO NOTHING, and what they keep.
use outbox_fanout.Prelude.{
  ℕ, suc, none, Option-cases, Bool, true, false, ◌≡◌, refl, sym, ◌⊎◌, inl, inr, List, [], ◌∷◌, ◌++◌,
  map, map-append, append-nil, append_assoc, ap, ◌∙◌, any, arith, Bool-cases, ◌==◌, ==_iff,
}
use outbox_fanout.Prelude.Distinct.{Distinct, Distinct-snoc, absent}
use outbox_fanout.Outcome.{Exc, integrity_error, Outcome, ok, raise, exit}
use outbox_fanout.Db.{World, Database, statement, session_scope}
use outbox_fanout.Claims.{insert_checked}

-- The call did not return.
abbrev pub Halted : {A : Type 0} → Outcome A → Type 0
Halted o = ((e : Exc) × (o ≡ raise e)) ⊎ ((code : ℕ) × (o ≡ exit code))

module _ {R : Type 0} (key id : R → ℕ) where
  abbrev pub is_taken : ℕ → List R → Bool
  is_taken k rows = any (λ r. key r == k) rows

  pub data Inserted (made : Outcome R) (rows : List R) (result : Outcome Bool × List R)
      : Type 0 where
    fresh :
        (row : R)
        → made ≡ ok row
        → is_taken (key row) rows ≡ false
        → result ≡ (ok true, rows ++ row ∷ [])
        → Inserted made rows result
    duplicate :
        (row : R)
        → made ≡ ok row
        → is_taken (key row) rows ≡ true
        → result ≡ (ok false, rows)
        → Inserted made rows result
    refused : (e : Exc) → result ≡ (raise e, rows) → Inserted made rows result
    killed : (code : ℕ) → result ≡ (exit code, rows) → Inserted made rows result

  pub insert_checked-Inserted :
      (made : Outcome R) (rows : List R) → Inserted made rows (insert_checked key id made rows)
  insert_checked-Inserted (ok row) rows = elim (Bool-cases (is_taken (key row) rows)) [
    | inl taken ↦ duplicate row refl taken (rw taken refl)
    | inr free ↦ elim (Bool-cases (any (λ r. id r == id row) rows)) [
      | inl same ↦ refused integrity_error (rw (free, same) refl)
      | inr new ↦ fresh row refl free (rw (free, new) refl)
    ]
  ]
  insert_checked-Inserted (raise e) rows = refused e refl
  insert_checked-Inserted (exit code) rows = killed code refl

  -- One more row under a key that was free keeps keys distinct.
  pub Distinct-insert :
      (row : R) (rows : List R)
      → is_taken (key row) rows ≡ false
      → Distinct (map key rows)
      → Distinct (map key (rows ++ row ∷ []))
  Distinct-insert row rows free d =
      rw map-append (Distinct-snoc (key row) _ d (absent key (key row) rows free))

  pub is_taken-snoc : (row : R) (rows : List R) → is_taken (key row) (rows ++ row ∷ []) ≡ true
  is_taken-snoc row [] = rw ((==_iff (key row) (key row)).1 refl) refl
  is_taken-snoc row (x ∷ rows) = ground (arith, is_taken-snoc row rows)

  pub is_taken-append :
      (k : ℕ) (rows more : List R) → is_taken k rows ≡ true → is_taken k (rows ++ more) ≡ true
  is_taken-append k [] more h = absurd (ground arith)
  is_taken-append k (x ∷ rows) more h = ground (arith, is_taken-append k rows more)

-- Keys are distinct, and the rows `t₀` are the first, unchanged.
pub record IsLedger {R : Type 0} (key : R → ℕ) (t₀ t : List R) : Type 0 where
  pub once : Distinct (map key t)
  pub added : (more : List R) × (t ≡ t₀ ++ more)

module _ {R : Type 0} (key id : R → ℕ) (t₀ : List R) where
  pub IsLedger-start : Distinct (map key t₀) → IsLedger key t₀ t₀
  IsLedger-start once = record { once = once; added = ([], sym (append-nil t₀)) }

  pub IsLedger-snoc :
      (row : R) (t : List R)
      → is_taken key id (key row) t ≡ false
      → IsLedger key t₀ t
      → IsLedger key t₀ (t ++ row ∷ [])
  IsLedger-snoc row t free h = record {
    once = Distinct-insert key id row t free h.once;
    added = (
      h.added.0 ++ row ∷ [],
      ap (λ x. x ++ row ∷ []) h.added.1 ∙ append_assoc t₀ h.added.0 (row ∷ []),
    );
  }

-- A session that makes one such INSERT.
module _ {R P : Type 0} (key id : R → ℕ) where
  pub data Claimed (made : Outcome R) (w : World (List R) P) (o : Outcome Bool)
      (w' : World (List R) P) : Type 0 where
    claimed :
        (row : R)
        → made ≡ ok row
        → is_taken key id (key row) w.tables ≡ false
        → o ≡ ok true
        → w'.tables ≡ w.tables ++ row ∷ []
        → Claimed made w o w'
    taken :
        (row : R)
        → made ≡ ok row
        → is_taken key id (key row) w.tables ≡ true
        → o ≡ ok false
        → w'.tables ≡ w.tables
        → Claimed made w o w'
    halted : Halted o → w'.tables ≡ w.tables → Claimed made w o w'

  module _ (db : Database) (made : Outcome R) (w : World (List R) P) where
    abbrev pub claiming : Outcome Bool × World (List R) P
    claiming = session_scope db (statement db (insert_checked key id made)) w

    module _ (calm : db.fault w.tick ≡ none) where
      Inserted-Claimed :
          Inserted key id made w.tables (insert_checked key id made w.tables)
          → Claimed made w claiming.0 claiming.1
      unfolding session_scope
      Inserted-Claimed (fresh row p free r) = elim (Option-cases (db.fault (suc w.tick))) [
        | inl commits ↦ claimed row p free (ground arith) (ground arith)
        | inr (e, fault) ↦ halted (inl (e, ground arith)) (ground arith)
      ]
      Inserted-Claimed (duplicate row p there r) = elim (Option-cases (db.fault (suc w.tick))) [
        | inl commits ↦ taken row p there (ground arith) (ground arith)
        | inr (e, fault) ↦ halted (inl (e, ground arith)) (ground arith)
      ]
      Inserted-Claimed (refused e r) = halted (inl (e, ground arith)) (ground arith)
      Inserted-Claimed (killed code r) = halted (inr (code, ground arith)) (ground arith)

    -- Every branch of the session, whatever the database answers.
    pub claiming-Claimed : Claimed made w claiming.0 claiming.1
    unfolding session_scope
    claiming-Claimed = elim (Option-cases (db.fault w.tick)) [
      | inl calm ↦ Inserted-Claimed calm (insert_checked-Inserted key id made w.tables)
      | inr (e, fault) ↦ halted (inl (e, ground arith)) (ground arith)
    ]
