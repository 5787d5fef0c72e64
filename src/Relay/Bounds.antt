-- ===== src/Relay/Bounds.antt =====
-- The bookkeeping columns of the outbox, which record_failure of relay/service.py writes.
use outbox_fanout.Prelude.{
  ℕ, ◌≤◌, ◌<◌, String, true, false, ◌≡◌, refl, sym, subst, ◌⊎◌, inl, inr, List, [], ◌∷◌, map,
  is_none, select, update, leb, chars, ◌==◌, arith, Bool-cases, update-update,
}
use outbox_fanout.Prelude.Predicates.{All, All-update}
use outbox_fanout.Outcome.{ok}
use outbox_fanout.Db.{World, Database}
use outbox_fanout.Formats.{Formats, Uuid}
use outbox_fanout.Tables.{OutboxEvent, Tables, fits}
use outbox_fanout.Config.{Config}
use outbox_fanout.Host.{Host}
use outbox_fanout.Relay.Publisher.{Sns, Publisher, Message}
use outbox_fanout.Relay.Service.{has_id, marked, bumped, parked, scalar_one}
use outbox_fanout.Relay.Main.{main}
use outbox_fanout.Relay.Induction.{Stable, main-Holds}

-- The reason fits its column, and a row that has used up its attempts is parked.
pub record IsBounded (max : ℕ) (e : OutboxEvent) : Type 0 where
  pub reason : fits 500 e.last_error ≡ true
  pub unspent : (is_none e.failed_at ≡ false) ⊎ (e.attempts < max)

abbrev AllBounded : ℕ → Tables → List Message → Type 0
AllBounded max t sent = All (IsBounded max) t.outbox

scalar_one-ok : (ns : List ℕ) (n : ℕ) → scalar_one ns ≡ ok n → All (λ m. m ≡ n) ns
scalar_one-ok [] n h = tt
scalar_one-ok (m ∷ []) n h = (ground arith, tt)
scalar_one-ok (m ∷ k ∷ ns) n h = absurd (ground arith)

module _ (max n : ℕ) (id : Uuid) (reason : String) (short : chars reason ≤ 500)
    (left : leb max n ≡ false) where
  -- The counter that the UPDATE returned is that of each row that it changed.
  counted_rows :
      (rows : List OutboxEvent)
      → All
          (λ m. m ≡ n)
          (map (λ e. e.attempts) (select (has_id id) (update (has_id id) (bumped reason) rows)))
      → All (IsBounded max) rows
      → All (IsBounded max) (update (has_id id) (bumped reason) rows)
  counted_rows [] r h = tt
  counted_rows (e ∷ rows) r (b, h) = elim (Bool-cases (e.id == id)) [
    | inl here ↦ rw here (
      record { reason = ground arith; unspent = inr (ground (arith, (rw (here, here) at r).0)) },
      counted_rows rows (rw (here, here) at r).1 h,
    )
    | inr other ↦ rw other (b, counted_rows rows (rw (other, other) at r) h)
  ]

bounded-stable : (f : Formats) (max : ℕ) → Stable f max (AllBounded max)
bounded-stable f max = record {
  sends = λ id event arn t sent claims h. h;
  marks = λ id event arn at t sent claims h.
      All-update (has_id id) (marked at) t.outbox
        (λ e _ k. record { reason = k.reason; unspent = k.unspent }) (λ e _ k. k) h;
  bumps = λ id reason t sent short left h.
      let (n, r, unspent) = left in
      counted_rows max n id reason short unspent t.outbox (scalar_one-ok _ n r) h;
  gives_up = λ id reason at t sent short h.
      subst (All (IsBounded max))
        (sym (update-update (has_id id) (bumped reason) (parked at) t.outbox (λ e. refl)))
        (All-update (has_id id) (λ e. parked at (bumped reason e)) t.outbox
          (λ e _ k. record { reason = ground arith; unspent = inl refl }) (λ e _ k. k) h);
}

-- In every run of the relay, whatever the database and SNS answer, each row's last_error keeps within
-- the 500 characters of its column, and each row with OUTBOX_MAX_ATTEMPTS failed attempts or more is
-- parked, if that was so at the start.
pub main-IsBounded :
    (f : Formats) (db : Database) (sns : Sns) (host : Host) (c : Config) (polls : ℕ)
    (w : World Tables Publisher)
    → All (IsBounded c.outbox_max_attempts) w.tables.outbox
    → All (IsBounded c.outbox_max_attempts) (main f db sns host c polls w).1.tables.outbox
main-IsBounded f db sns host c polls w h =
    main-Holds f db sns host c (AllBounded c.outbox_max_attempts)
      (bounded-stable f c.outbox_max_attempts) polls w h
