-- ===== src/Relay/Pending.antt =====
-- The batch that a poll works on.
use Prim.Native.Nat.{min}
use outbox_fanout.Prelude.{
  ℕ, ◌≤◌, ◌<◌, ◌≡◌, ◌⊎◌, Bool, true, false, none, List, length, length-take, select, arith,
}
use outbox_fanout.Prelude.Predicates.{All, In, All-of_In, In-select, select-In}
use outbox_fanout.Prelude.Sort.{
  order_by, IsOrdered, order_by-In, order_by-All, order_by-IsOrdered, take-fair, take-All,
  take-IsOrdered, length-order_by,
}
use outbox_fanout.Tables.{OutboxEvent, Tables}
use outbox_fanout.Config.{Config}
use outbox_fanout.Relay.Service.{is_pending, pending_rows}

-- A row that the relay still has to publish.
pub record IsDue (c : Config) (t : Tables) (e : OutboxEvent) : Type 0 where
  pub stored : In e t.outbox
  pub unpublished : e.published ≡ false
  pub unparked : e.failed_at ≡ none
  pub retriable : e.attempts < c.outbox_max_attempts

module _ (c : Config) (limit : ℕ) (t : Tables) where
  abbrev pending : OutboxEvent → Bool
  pending = is_pending c.outbox_max_attempts

  pub IsDue-of_pending : (e : OutboxEvent) → In e t.outbox × (pending e ≡ true) → IsDue c t e
  IsDue-of_pending e h = record {
    stored = h.0;
    unpublished = ground (arith, h.1);
    unparked = ground (arith, h.1);
    retriable = ground (arith, h.1);
  }

  pub pending-of_IsDue : (e : OutboxEvent) → IsDue c t e → pending e ≡ true
  pending-of_IsDue e d = ground (arith, d.unpublished, d.unparked, d.retriable)

  abbrev created : OutboxEvent → ℕ
  created e = e.created_at

  abbrev due : List OutboxEvent
  due = select pending t.outbox

  pub pending_rows_lem :
      All (IsDue c t) (pending_rows c limit t)
      × IsOrdered (λ e. e.created_at) (pending_rows c limit t)
      × (length (pending_rows c limit t)
          ≡ min limit (length (select (is_pending c.outbox_max_attempts) t.outbox)))
  unfolding pending_rows
  pending_rows_lem = (
    take-All _ limit _ (
        order_by-All created _ _
          (All-of_In _ (λ e m. IsDue-of_pending e (In-select pending t.outbox e m)))),
    take-IsOrdered created limit _ (order_by-IsOrdered created due),
    ground (arith, length-take limit (order_by created due), length-order_by created due),
  )

  -- No due row is passed over for a more recent one: it is in the batch, or every row of the batch is
  -- at least as old.
  pub pending_rows-fair :
      (e : OutboxEvent)
      → IsDue c t e
      → In e (pending_rows c limit t)
        ⊎ All (λ b. b.created_at ≤ e.created_at) (pending_rows c limit t)
  unfolding pending_rows
  pending_rows-fair e d =
      take-fair created limit _ e (order_by-IsOrdered created due)
        (order_by-In created _ e (select-In pending t.outbox e d.stored (pending-of_IsDue e d)))
