-- ===== src/Relay/Served.antt =====
-- One failed row in surroundings that let the relay work.
use outbox_fanout.Prelude.{
  ℕ, ◌+◌, ◌<◌, String, Bool, false, ◌≡◌, refl, sym, subst, inl, inr, none, some, arith, ==_iff,
  map-update, update-update, ◌&&◌, ◌==◌, not,
}
use outbox_fanout.Prelude.Predicates.{In, update-In}
use outbox_fanout.Prelude.Distinct.{Distinct, select_unique}
use outbox_fanout.Outcome.{Outcome, ok}
use outbox_fanout.Db.{World, Database}
use outbox_fanout.Formats.{Formats, Uuid}
use outbox_fanout.Tables.{OutboxEvent, Tables}
use outbox_fanout.Config.{Config}
use outbox_fanout.Host.{Host}
use outbox_fanout.Relay.Publisher.{Sns, Publisher}
use outbox_fanout.Relay.Service.{claim, has_id, bumped, parked, update_row}
use outbox_fanout.Relay.FailureEffect.{Recorded, kept, counted, gave_up, returned}
use outbox_fanout.Relay.Safety.{ids}
use outbox_fanout.Relay.Pending.{IsDue, pending-of_IsDue}
use outbox_fanout.Relay.Budget.{
  budget, budget-update-lt, remaining-bumped-le, remaining-bumped-lt, remaining-given_up,
  remaining-pos,
}

module _ (c : Config) (t : Tables) (e : OutboxEvent) (keys : Distinct (ids t.outbox))
    (stored : In e t.outbox) where
  -- A row that nobody else holds is claimed.
  pub claim-found :
      (locked : Uuid → Bool)
      → ((id : Uuid) → locked id ≡ false)
      → e.published ≡ false
      → (claim e.id locked t).0 ≡ ok (some e)
  unfolding claim
  claim-found locked free h =
      rw
        (select_unique (λ x. x.id) (λ x. x.id == e.id && not x.published && not (locked x.id))
          t.outbox e keys stored (ground (arith, free e.id)) (λ x p. ground arith))
        refl

  -- The counter of a stored row is returned one higher.
  returned-found : (reason : String) → returned e.id reason t ≡ ok (e.attempts + 1)
  returned-found reason =
      rw
        (select_unique (λ x. x.id) (has_id e.id) (update_row e.id (bumped reason) t).outbox
          (bumped reason e)
          (subst Distinct
            (sym (map-update (λ x. x.id) (has_id e.id) (bumped reason) t.outbox (λ x. refl))) keys)
          (update-In (has_id e.id) (bumped reason) t.outbox e stored ((==_iff e.id e.id).1 refl))
          ((==_iff e.id e.id).1 refl) (λ x p. (==_iff x.id e.id).0 p))
        refl

-- The surroundings in which the relay makes progress: the database answers, nobody else holds a row,
-- no crash is injected, and a batch has room. SNS may still answer anything.
pub record IsServed (db : Database) (c : Config) : Type 0 where
  pub answers : (n : ℕ) → db.fault n ≡ none
  pub free : (n id : ℕ) → db.locked n id ≡ false
  pub steady : c.crash_after_publish ≡ false
  pub room : 0 < c.relay_batch_size

abbrev pub left : Config → Tables → ℕ
left c t = budget c.outbox_max_attempts t.outbox

module _ (f : Formats) (db : Database) (sns : Sns) (host : Host) (c : Config) where
  module _ (served : IsServed db c) where
    module _ (id : Uuid) (reason : String) (permanent : Bool) (e : OutboxEvent) where
      -- A recorded failure takes an attempt from the row.
      pub Recorded-lt :
          {w w' : World Tables Publisher} {o : Outcome ℕ}
          → Recorded db c id reason permanent w o w'
          → IsDue c w.tables e
          → e.id ≡ id
          → Distinct (ids w.tables.outbox)
          → (left c w'.tables < left c w.tables) × ((n : ℕ) × (o ≡ ok n))
      Recorded-lt (kept x _ (inl (n, fault)) t) due same keys =
          absurd (ground (arith, served.answers n))
      Recorded-lt {w} (kept x _ (inr none_found) t) due same keys = absurd (
          ground (
            arith,
            subst (λ k. returned k reason w.tables ≡ ok (e.attempts + 1)) same
                (returned-found c w.tables e keys due.stored reason),
          ))
      Recorded-lt {w} (counted n r _ _ t) due same keys = (
        rw t (
            budget-update-lt c.outbox_max_attempts id (bumped reason)
              (λ x. remaining-bumped-le c.outbox_max_attempts x reason) e w.tables.outbox due.stored
              same
              (remaining-bumped-lt c.outbox_max_attempts e reason
                (pending-of_IsDue c (0) w.tables e due))),
        (n, r),
      )
      Recorded-lt {w} (gave_up n at r _ _ t) due same keys = (
        rw (t, update-update (has_id id) (bumped reason) (parked at) w.tables.outbox (λ x. refl))
            (budget-update-lt c.outbox_max_attempts id (λ x. parked at (bumped reason x))
              (λ x. omega (arith, remaining-given_up c.outbox_max_attempts x reason at)) e
              w.tables.outbox due.stored same
              (omega (
                arith,
                remaining-given_up c.outbox_max_attempts e reason at,
                remaining-pos c.outbox_max_attempts e (pending-of_IsDue c (0) w.tables e due),
              ))),
        (n, r),
      )
