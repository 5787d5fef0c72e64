-- ===== src/Relay/Success.antt =====
-- A row whose message SNS takes.
use outbox_fanout.Prelude.{ℕ, String, false, true, ◌≡◌, refl, sym, subst, ◌∷◌, arith, ==_iff}
use outbox_fanout.Prelude.Predicates.{In, update-In}
use outbox_fanout.Prelude.Distinct.{Distinct}
use outbox_fanout.Outcome.{ok}
use outbox_fanout.Db.{World, Database, ticked}
use outbox_fanout.Formats.{Formats}
use outbox_fanout.Tables.{OutboxEvent, Tables}
use outbox_fanout.Config.{Config}
use outbox_fanout.Host.{Host}
use outbox_fanout.Relay.Publisher.{Sns, Publisher, message_of, publish}
use outbox_fanout.Relay.Service.{relay_one, has_id, marked, update_row}
use outbox_fanout.Relay.PublishEffect.{
  target, publish-tables, publish-committed, publish-acknowledged,
}
use outbox_fanout.Relay.Effects.{claim-tables}
use outbox_fanout.Relay.Safety.{ids}
use outbox_fanout.Relay.Served.{IsServed, claim-found}

module _ (f : Formats) (db : Database) (sns : Sns) (host : Host) (c : Config)
    (w : World Tables Publisher) (e : OutboxEvent) (m : String) where
  -- The moment of the mark: the clock at the calls that the publish leaves behind.
  abbrev pub marked_at : ℕ
  marked_at = host.now (publish f sns c e w.tables (ticked w)).2.tick

  module _ (served : IsServed db c) (keys : Distinct (ids w.tables.outbox))
      (stored : In e w.tables.outbox) (unpublished : e.published ≡ false)
      (taken : (publish f sns c e w.tables (ticked w)).0 ≡ ok m) where
    relays :
        ((relay_one f db sns host c e.id w).0 ≡ ok true)
        × ((relay_one f db sns host c e.id w).1.tables
            ≡ update_row e.id (marked marked_at) w.tables)
        × ((relay_one f db sns host c e.id w).1.process.sent
            ≡ message_of f (target f sns c e w.tables (ticked w)) e ∷ w.process.sent)
    unfolding relay_one
    relays = ground (
      arith,
      served.answers w.tick,
      served.answers (publish f sns c e w.tables (ticked w)).2.tick,
      served.steady,
      claim-found c w.tables e keys stored (db.locked w.tick) (served.free w.tick) unpublished,
      claim-tables e.id (db.locked w.tick) w.tables,
      publish-tables f sns c e w.tables (ticked w),
      publish-committed f sns c e w.tables (ticked w),
      publish-acknowledged f sns c e w.tables (ticked w) m taken,
    )

    -- Where the database answers, no row is locked, no crash is injected, a batch has room, keys are
    -- distinct and `publish` returns for a stored unpublished row, relay_one returns True, the row is
    -- marked published, and its message is the one that SNS took.
    pub relay_one-publish :
        ((relay_one f db sns host c e.id w).0 ≡ ok true)
        × In (marked marked_at e) (relay_one f db sns host c e.id w).1.tables.outbox
        × ((relay_one f db sns host c e.id w).1.process.sent
            ≡ message_of f (target f sns c e w.tables (ticked w)) e ∷ w.process.sent)
    relay_one-publish =
        let (returned, written, sent) = relays in
        (
          returned,
          subst (λ t. In (marked marked_at e) t.outbox) (sym written)
              (update-In (has_id e.id) (marked marked_at) w.tables.outbox e stored
                ((==_iff e.id e.id).1 refl)),
          sent,
        )
