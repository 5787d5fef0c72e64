-- ===== src/Relay/Progress.antt =====
-- Each poll with a row to publish lowers the attempts that are left.
use outbox_fanout.Prelude.{
  ℕ, zero, suc, ◌+◌, ◌≤◌, ◌<◌, Bool, true, false, ◌≡◌, refl, sym, ap, subst, inl, inr, List, [],
  ◌∷◌, map, some, arith, length, truncate,
}
use outbox_fanout.Prelude.Predicates.{All}
use outbox_fanout.Prelude.Distinct.{Distinct}
use outbox_fanout.Outcome.{Exc, Outcome, ok, raise, exit}
use outbox_fanout.Db.{World, Database, Action}
use outbox_fanout.Formats.{Formats, Uuid}
use outbox_fanout.Tables.{OutboxEvent, Tables}
use outbox_fanout.Config.{Config}
use outbox_fanout.Host.{Host}
use outbox_fanout.Relay.Publisher.{Sns, Publisher}
use outbox_fanout.Relay.Service.{
  is_permanent, claim, marked, on_failure, after_one, after_recorded, relay_next, relay_ids,
  read_batch, relay_batch, pending_event_ids, pending_rows,
}
use outbox_fanout.Relay.Effects.{Relayed, untouched, unmarked, published, relay_one-Relayed}
use outbox_fanout.Relay.FailureEffect.{record_failure-Recorded}
use outbox_fanout.Relay.Induction.{relay_ids-Holds, relay_batch-Holds}
use outbox_fanout.Relay.Safety.{ids, keys-stable}
use outbox_fanout.Relay.Pending.{IsDue, pending-of_IsDue, pending_rows_lem}
use outbox_fanout.Relay.Budget.{
  budget-update-lt, remaining-marked, remaining-pos, budget-stable, some_pending,
}
use outbox_fanout.Relay.Served.{IsServed, left, claim-found, Recorded-lt}

module _ (f : Formats) (db : Database) (sns : Sns) (host : Host) (c : Config) where
  module _ (served : IsServed db c) where
    module _ (id : Uuid) (e : OutboxEvent) (same : e.id ≡ id) where
      -- What the rest of a loop keeps below a bound.
      module _ (n : ℕ) (next : ℕ → Action Tables Publisher ℕ)
          (rest : (k m : ℕ) (w : World Tables Publisher)
            → left c w.tables < m
            → left c (next k w).1.tables < m) where
        after_recorded-lt :
            (permanent : Bool) (o : Outcome ℕ) (m : ℕ) (w : World Tables Publisher)
            → left c w.tables < m
            → left c (after_recorded f db sns host c permanent o n next w).1.tables < m
        after_recorded-lt true (ok k) m w h = rest n m w h
        after_recorded-lt false (ok k) m w h = h
        after_recorded-lt permanent (raise x) m w h = h
        after_recorded-lt permanent (exit code) m w h = h

        on_failure-lt :
            (x : Exc) (w : World Tables Publisher)
            → IsDue c w.tables e
            → Distinct (ids w.tables.outbox)
            → left c (on_failure f db sns host c id x n next w).1.tables < left c w.tables
        unfolding on_failure
        on_failure-lt x w due keys =
            after_recorded-lt (is_permanent x) _ _ _
              (Recorded-lt f db sns host c served id (truncate 500 (host.describe x))
                (is_permanent x) e (record_failure-Recorded db host c id x (is_permanent x) w) due
                same keys).0

        raised-lt :
            (x : Exc) (t : Tables) (w' : World Tables Publisher)
            → w'.tables ≡ t
            → IsDue c t e
            → Distinct (ids t.outbox)
            → left c (on_failure f db sns host c id x n next w').1.tables < left c t
        raised-lt x t w' p due keys =
            subst (λ u. left c (on_failure f db sns host c id x n next w').1.tables < left c u) p
              (on_failure-lt x w' (subst (λ u. IsDue c u e) (sym p) due)
                (subst (λ u. Distinct (ids u.outbox)) (sym p) keys))

        Relayed-lt :
            {w w' : World Tables Publisher} {o : Outcome Bool}
            → Relayed f db c id w o w'
            → IsDue c w.tables e
            → Distinct (ids w.tables.outbox)
            → left c (after_one f db sns host c id o n next w').1.tables < left c w.tables
        Relayed-lt {w} (untouched (inl (_, missed)) t s) due keys = absurd (
            ground (
              arith,
              subst (λ k. (claim k (db.locked w.tick) w.tables).0 ≡ ok (some e)) same
                  (claim-found c w.tables e keys due.stored (db.locked w.tick) (served.free w.tick)
                    due.unpublished),
            ))
        Relayed-lt {w} {w'} (untouched (inr (x, raised)) t s) due keys =
            rw raised (raised-lt x w.tables w' t due keys)
        Relayed-lt (unmarked event arn claims (inl (_, crash)) t s) due keys =
            absurd (ground (arith, served.steady))
        Relayed-lt {w} {w'} (unmarked event arn claims (inr (x, raised)) t s) due keys =
            rw raised (raised-lt x w.tables w' t due keys)
        Relayed-lt {w} {w'} (published event arn at claims done t s) due keys = rw done (
            rest (n + 1) (left c w.tables) w' (
              rw t (
                budget-update-lt c.outbox_max_attempts id (marked at)
                  (λ x. omega (arith, remaining-marked c.outbox_max_attempts x at)) e
                  w.tables.outbox due.stored same
                  (omega (
                    arith,
                    remaining-marked c.outbox_max_attempts e at,
                    remaining-pos c.outbox_max_attempts e (pending-of_IsDue c 0 w.tables e due),
                  )))))

        relay_next-lt :
            (w : World Tables Publisher)
            → IsDue c w.tables e
            → Distinct (ids w.tables.outbox)
            → left c (relay_next f db sns host c id n next w).1.tables < left c w.tables
        unfolding relay_next
        relay_next-lt w due keys = Relayed-lt (relay_one-Relayed f db sns host c id w) due keys

    relay_ids-lt :
        (es : List Uuid) (k m : ℕ) (w : World Tables Publisher)
        → left c w.tables < m
        → left c (relay_ids f db sns host c es k w).1.tables < m
    relay_ids-lt es k zero w h = absurd (omega arith)
    relay_ids-lt es k (suc m) w h = omega (
      arith,
      relay_ids-Holds f db sns host c (λ t sent. left c t ≤ m)
          (budget-stable c.outbox_max_attempts f m) es k w (omega arith),
    )

    module _ (w : World Tables Publisher) where
      abbrev pub batch : List OutboxEvent
      batch = pending_rows c c.relay_batch_size w.tables

      pub read_batch-ids : (read_batch f db sns host c w).0 ≡ ok (map (λ e. e.id) batch)
      unfolding read_batch pending_event_ids
      read_batch-ids = ground (arith, served.answers w.tick, served.answers (suc w.tick))

      read_batch-tables : (read_batch f db sns host c w).1.tables ≡ w.tables
      unfolding read_batch
      read_batch-tables = ground arith

      head-lt :
          (x : OutboxEvent) (r : List Uuid) (w' : World Tables Publisher) (t : Tables)
          → w'.tables ≡ t
          → IsDue c t x
          → Distinct (ids t.outbox)
          → left c (relay_ids f db sns host c (x.id ∷ r) 0 w').1.tables < left c t
      unfolding relay_ids
      head-lt x r w' t p due keys =
          subst
            (λ u.
              left c (relay_next f db sns host c x.id 0 (relay_ids f db sns host c r) w').1.tables
              < left c u)
            p
            (relay_next-lt x.id x refl 0 _ (relay_ids-lt r) w'
              (subst (λ u. IsDue c u x) (sym p) due)
              (subst (λ u. Distinct (ids u.outbox)) (sym p) keys))

      batch-lt :
          (rows : List OutboxEvent)
          → batch ≡ rows
          → Distinct (ids w.tables.outbox)
          → 0 < left c w.tables
          → left c (relay_batch f db sns host c w).1.tables < left c w.tables
      unfolding relay_batch
      batch-lt [] p keys some_left = absurd (
          omega (
            arith,
            served.room,
            some_pending c.outbox_max_attempts w.tables.outbox some_left,
            (pending_rows_lem c c.relay_batch_size w.tables).2,
            ap (length {A = OutboxEvent}) p,
          ))
      batch-lt (x ∷ r) p keys some_left =
          rw (read_batch-ids, p)
            (head-lt x (map (λ e. e.id) r) (read_batch f db sns host c w).1 w.tables
              read_batch-tables
              (subst (All (IsDue c w.tables)) p
                (pending_rows_lem c c.relay_batch_size w.tables).0).0
              keys)

      -- A poll with a due row lowers the attempts that are left.
      pub relay_batch-lt :
          Distinct (ids w.tables.outbox)
          → 0 < left c w.tables
          → left c (relay_batch f db sns host c w).1.tables < left c w.tables
      relay_batch-lt keys some_left = batch-lt batch refl keys some_left

      pub relay_batch-keys :
          Distinct (ids w.tables.outbox)
          → Distinct (ids (relay_batch f db sns host c w).1.tables.outbox)
      relay_batch-keys keys =
          relay_batch-Holds f db sns host c (λ t sent. Distinct (ids t.outbox))
            (keys-stable f c.outbox_max_attempts) w keys
