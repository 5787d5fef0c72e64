-- ===== src/Relay/Cluster/Sessions.antt =====
-- A call of `relay_one` is a sequence of the cluster's steps.
use outbox_fanout.Prelude.{
  ℕ, suc, String, Bool, true, false, ◌&&◌, not, ◌≡◌, refl, sym, ap, ◌∙◌, subst, inl, inr, List, [],
  ◌∷◌, map, ◌==◌, ==_iff, select, arith, Bool-cases, Option-cases,
}
use outbox_fanout.Db.{World, Database}
use outbox_fanout.Formats.{Formats, Uuid}
use outbox_fanout.Tables.{OutboxEvent, Tables}
use outbox_fanout.Config.{Config}
use outbox_fanout.Host.{Host}
use outbox_fanout.Relay.Publisher.{Sns, Publisher, Message, message_of}
use outbox_fanout.Relay.Service.{relay_one, claim, update_row, marked}
use outbox_fanout.Relay.Effects.{Claims, Relayed, untouched, unmarked, published, relay_one-Relayed}
use outbox_fanout.Relay.Cluster.{
  Cluster, locked, claims, sends, commits, ends, Steps, none_more, then_more,
}

abbrev pub messages : List (Uuid × Message) → List Message
messages = map (λ p. p.1)

-- The cluster's committed tables and messages are those of the process's world.
pub record Mirrors (s : Cluster) (w : World Tables Publisher) : Type 0 where
  pub tables : s.tables ≡ w.tables
  pub sent : messages s.sent ≡ w.process.sent

skips_locked :
    (id : Uuid) (lock : Uuid → Bool) (rows : List OutboxEvent)
    → lock id ≡ true
    → select (λ e. e.id == id && not e.published && not (lock e.id)) rows ≡ []
skips_locked id lock [] h = refl
skips_locked id lock (e ∷ rows) h = elim (Bool-cases (e.id == id)) [
  | inl here ↦ ground (arith, skips_locked id lock rows h, ap lock ((==_iff e.id id).0 here) ∙ h)
  | inr other ↦ rw other (skips_locked id lock rows h)
]

module _ (f : Formats) (db : Database) (sns : Sns) (host : Host) (c : Config) (id : Uuid)
    (w : World Tables Publisher) where
  abbrev after : World Tables Publisher
  after = (relay_one f db sns host c id w).1

  -- A row that another session holds is passed over.
  relay_one_locked :
      db.locked w.tick id ≡ true → (after.tables ≡ w.tables) × (after.process.sent ≡ w.process.sent)
  unfolding relay_one claim
  relay_one_locked h =
      let nothing = skips_locked id (db.locked w.tick) w.tables.outbox h in
      elim (Option-cases (db.fault w.tick)) [
        | inl calm ↦ elim (Option-cases (db.fault (suc w.tick))) [
          | inl ends_well ↦ (ground (arith, nothing), ground (arith, nothing))
          | inr (e, refused) ↦ (ground (arith, nothing), ground (arith, nothing))
        ]
        | inr (e, refused) ↦ (ground arith, ground arith)
      ]

  module _ (relay : ℕ) (s : Cluster) (mirrors : Mirrors s w) where
    -- The steps up to SNS's taking of the message.
    abbrev claimed : OutboxEvent → Bool → List (Uuid × Message) → Cluster
    claimed event b ms = record s {
      sessions = record { relay = relay; event = event; sent = b } ∷ s.sessions;
      sent = ms;
    }

    to_sent :
        (event : OutboxEvent) (arn : String) (t : Cluster)
        → Claims id event w.tables
        → locked s.sessions id ≡ false
        → Steps f (claimed event true ((event.id, message_of f arn event) ∷ s.sent)) t
        → Steps f s t
    to_sent event arn t found free rest =
        then_more s (claimed event false s.sent) t
          (claims relay event (subst (λ ts. Claims event.id event ts) (sym mirrors.tables) found')
            (ap (locked s.sessions) found.same_id ∙ free))
          (then_more (claimed event false s.sent) _ t (sends relay event arn [] s.sessions refl)
            rest)
      where
        found' : Claims event.id event w.tables
        found' = record { row = found.row; same_id = refl; unpublished = found.unpublished }

    Relayed-Steps :
        {o : _} (w' : World Tables Publisher)
        → locked s.sessions id ≡ false
        → Relayed f db c id w o w'
        → (t : Cluster) × Steps f s t × (t.sessions ≡ s.sessions) × Mirrors t w'
    Relayed-Steps w' free (untouched _ t m) = (
      s,
      none_more s,
      refl,
      record { tables = mirrors.tables ∙ sym t; sent = mirrors.sent ∙ sym m },
    )
    Relayed-Steps w' free (unmarked event arn found _ t m) = (
      _,
      to_sent event arn _ found free (
          then_more _ _ _
            (ends (record { relay = relay; event = event; sent = true }) [] s.sessions refl)
            (none_more _)),
      refl,
      record {
        tables = mirrors.tables ∙ sym t;
        sent = ap (λ ms. message_of f arn event ∷ ms) mirrors.sent ∙ sym m;
      },
    )
    Relayed-Steps w' free (published event arn at found _ t m) = (
      _,
      to_sent event arn _ found free
          (then_more _ _ _ (commits relay event at [] s.sessions refl) (none_more _)),
      refl,
      record {
        tables =
            ap (λ i. update_row i (marked at) s.tables) found.same_id
            ∙ ap (update_row id (marked at)) mirrors.tables
            ∙ sym t;
        sent = ap (λ ms. message_of f arn event ∷ ms) mirrors.sent ∙ sym m;
      },
    )

    -- A call of relay_one, on every branch, is a sequence of steps of the cluster that ends with
    -- the sessions that were there before, if the database tells it of the row's lock as those
    -- sessions hold it.
    pub relay_one-Steps :
        db.locked w.tick id ≡ locked s.sessions id
        → (t : Cluster) × Steps f s t × (t.sessions ≡ s.sessions) × Mirrors t after
    relay_one-Steps agrees = elim (Bool-cases (locked s.sessions id)) [
      | inl held ↦
          let (t, m) = relay_one_locked (agrees ∙ held) in
          (
            s,
            none_more s,
            refl,
            record { tables = mirrors.tables ∙ sym t; sent = mirrors.sent ∙ sym m },
          )
      | inr free ↦ Relayed-Steps after free (relay_one-Relayed f db sns host c id w)
    ]
