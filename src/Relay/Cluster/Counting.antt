-- ===== src/Relay/Cluster/Counting.antt =====
-- Counting rows, sessions and messages by the id of a row.
use outbox_fanout.Prelude.{
  one_if, count, ◌+◌, ◌≤◌, Bool, true, ◌&&◌, not, ◌≡◌, ◌≢◌, refl, inl, inr, List, [], ◌∷◌, ◌++◌,
  ◌==◌, arith, Bool-cases, update,
}
use outbox_fanout.Prelude.Predicates.{In}
use outbox_fanout.Formats.{Uuid, Timestamp}
use outbox_fanout.Tables.{OutboxEvent}
use outbox_fanout.Relay.Service.{has_id, marked}

abbrev pub is_published : Uuid → OutboxEvent → Bool
is_published id e = e.id == id && e.published

abbrev pub is_unpublished : Uuid → OutboxEvent → Bool
is_unpublished id e = e.id == id && not e.published

module _ {A : Type 0} (p : A → Bool) where
  pub count-append : (xs ys : List A) → count p (xs ++ ys) ≡ count p xs + count p ys
  count-append [] ys = omega arith
  count-append (x ∷ xs) ys = omega (arith, count-append xs ys)

  -- An element in the middle.
  pub count_middle :
      (front back : List A) (x : A)
      → count p (front ++ (x ∷ back)) ≡ one_if (p x) + count p (front ++ back)
  count_middle [] back x = omega arith
  count_middle (y ∷ front) back x = omega (arith, count_middle front back x)

  pub count-In : (xs : List A) (x : A) → In x xs → p x ≡ true → 1 ≤ count p xs
  count-In [] x m h = absurd m
  count-In (y ∷ xs) x (inl here) h = ground (arith, here)
  count-In (y ∷ xs) x (inr there) h = omega (arith, count-In xs x there h)

  -- A change that no test tells.
  pub count-update :
      (q : A → Bool) (change : A → A) (xs : List A)
      → ((x : A) → p (change x) ≡ p x)
      → count p (update q change xs) ≡ count p xs
  count-update q change [] h = refl
  count-update q change (x ∷ xs) h = elim (Bool-cases (q x)) [
    | inl same ↦ rw (same, h x, count-update q change xs h) refl
    | inr other ↦ rw (other, count-update q change xs h) refl
  ]

-- A row is published or not.
pub count_rows :
    (id : Uuid) (rows : List OutboxEvent)
    → count (has_id id) rows ≡ count (is_published id) rows + count (is_unpublished id) rows
count_rows id [] = refl
count_rows id (e ∷ rows) = ground (arith, count_rows id rows)

module _ (id : Uuid) (at : Timestamp) where
  -- Marking the rows under an id publishes them.
  pub marked-published :
      (rows : List OutboxEvent)
      → count (is_published id) (update (has_id id) (marked at) rows) ≡ count (has_id id) rows
  marked-published [] = refl
  marked-published (e ∷ rows) = ground (arith, marked-published rows)

  pub marked-unpublished :
      (rows : List OutboxEvent)
      → count (is_unpublished id) (update (has_id id) (marked at) rows) ≡ 0
  marked-unpublished [] = refl
  marked-unpublished (e ∷ rows) = ground (arith, marked-unpublished rows)

  -- Rows under another id stay as they were.
  pub marked_elsewhere :
      (other : Uuid) (rows : List OutboxEvent)
      → other ≢ id
      → (count (is_published other) (update (has_id id) (marked at) rows)
          ≡ count (is_published other) rows)
        × (count (is_unpublished other) (update (has_id id) (marked at) rows)
            ≡ count (is_unpublished other) rows)
  marked_elsewhere other [] ne = (refl, refl)
  marked_elsewhere other (e ∷ rows) ne =
      let (h, k) = marked_elsewhere other rows ne in (ground (arith, h, ne), ground (arith, k, ne))
