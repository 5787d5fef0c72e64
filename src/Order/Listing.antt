-- ===== src/Order/Listing.antt =====
-- What GET /outbox returns (order/routes.py).
use mathlib.Core.List.{reverse, reverse_perm, Perm}
use mathlib.Core.List.Perm
use outbox_fanout.Prelude.{
  ℕ, ◌≤◌, ◌≡◌, ◌⊎◌, Bool, true, false, not, refl, sym, subst, none, List, [], ◌∷◌, ◌++◌, length,
  length-take, select, take, drop, take-drop, drop-cases, arith, ap, if◌then◌else◌,
}
use outbox_fanout.Prelude.Predicates.{All}
use outbox_fanout.Prelude.Sort.{order_by, order_by-Perm, order_by-IsOrdered}
use outbox_fanout.Prelude.Descending.{
  IsDescending, reverse-IsDescending, take-IsDescending, drop-older,
}
use outbox_fanout.Outcome.{ok}
use outbox_fanout.Db.{World, Database}
use outbox_fanout.Formats.{Formats}
use outbox_fanout.Tables.{OutboxEvent, Tables}
use outbox_fanout.Config.{Config}
use outbox_fanout.Host.{Host}
use outbox_fanout.Order.Routes.{outbox_rows, list_outbox}

-- The row is stored, and not published if only such rows are asked for.
abbrev pub is_wanted : Bool → OutboxEvent → Bool
is_wanted unpublished_only e = if unpublished_only then not e.published else true

select-true : {A : Type 0} (xs : List A) → select (λ x. true) xs ≡ xs
select-true [] = refl
select-true (x ∷ xs) = ap (λ ys. x ∷ ys) (select-true xs)

wanted-select :
    (b : Bool) (es : List OutboxEvent)
    → (if b then select (λ e. not e.published) es else es) ≡ select (is_wanted b) es
wanted-select true es = refl
wanted-select false es = sym (select-true es)

module _ (f : Formats) (db : Database) (host : Host) (c : Config) (unpublished_only : Bool)
    (limit : ℕ) where
  abbrev created : OutboxEvent → ℕ
  created e = e.created_at

  abbrev wanted : Tables → List OutboxEvent
  wanted t = if unpublished_only then select (λ e. not e.published) t.outbox else t.outbox

  abbrev newest_first : Tables → List OutboxEvent
  newest_first t = reverse (order_by created (wanted t))

  newest_first-Perm :
      (t : Tables) → Perm (newest_first t) (select (is_wanted unpublished_only) t.outbox)
  newest_first-Perm t =
      subst (λ es. Perm (newest_first t) es) (wanted-select unpublished_only t.outbox)
        (Perm.trans (reverse_perm (order_by created (wanted t))) (order_by-Perm created (wanted t)))

  newest_first-IsDescending : (t : Tables) → IsDescending created (newest_first t)
  newest_first-IsDescending t =
      reverse-IsDescending created _ (order_by-IsOrdered created (wanted t))

  -- Where the database answers, GET /outbox returns rows from the most recent to the oldest. With those
  -- that it leaves out they are the stored rows of the kind asked for, each as often as it is stored.
  -- It returns at most `limit` of them, and fewer only where it leaves none out, and no row that it
  -- leaves out is more recent than one that it returns. Nothing is written.
  pub list_outbox_lem :
      (w : World Tables (Unit {0}))
      → db.fault w.tick ≡ none
      → (found : List OutboxEvent) × (left_out : List OutboxEvent) × ((list_outbox f db host c
            unpublished_only limit w).0
          ≡ ok found)
        × ((list_outbox f db host c unpublished_only limit w).1.tables ≡ w.tables)
        × IsDescending (λ e. e.created_at) found
        × Perm (found ++ left_out) (select (is_wanted unpublished_only) w.tables.outbox)
        × (length found ≤ limit)
        × ((left_out ≡ []) ⊎ (length found ≡ limit))
        × All (λ e. All (λ b. e.created_at ≤ b.created_at) found) left_out
  unfolding list_outbox outbox_rows
  list_outbox_lem w calm = (
    take limit (newest_first w.tables),
    drop limit (newest_first w.tables),
    ground (arith, calm),
    ground (arith, calm),
    take-IsDescending created limit _ (newest_first-IsDescending w.tables),
    subst (λ es. Perm es (select (is_wanted unpublished_only) w.tables.outbox))
        (sym (take-drop limit (newest_first w.tables))) (newest_first-Perm w.tables),
    ground (arith, length-take limit (newest_first w.tables)),
    drop-cases limit (newest_first w.tables),
    drop-older created limit _ (newest_first-IsDescending w.tables),
  )
