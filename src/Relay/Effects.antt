-- ===== src/Relay/Effects.antt =====
-- What one call of `relay_one` and one of `record_failure` can have done, on every branch.
use outbox_fanout.Prelude.{
  ap, sym, ◌∙◌, length, ℕ, suc, String, Bool, true, false, ◌≡◌, ◌≢◌, refl, ◌⊎◌, inl, inr, List, ◌∷◌,
  [], Option, none, some, arith, ◌==◌, Bool-cases, Option-cases, ◌&&◌, not,
}
use outbox_fanout.Prelude.Predicates.{In, In-select}
use outbox_fanout.Outcome.{Exc, Outcome, ok, raise, exit}
use outbox_fanout.Db.{World, Database, ticked}
use outbox_fanout.Formats.{Formats, Uuid, Timestamp}
use outbox_fanout.Tables.{OutboxEvent, Tables}
use outbox_fanout.Config.{Config}
use outbox_fanout.Host.{Host}
use outbox_fanout.Relay.Publisher.{Sns, Publisher, Message, message_of, publish}
use outbox_fanout.Relay.Service.{relay_one, claim, one_or_none, update_row, marked, crash_exit_code}
use outbox_fanout.Relay.PublishEffect.{
  target, publish-tables, publish-committed, publish-ne-exit, publish-sent, publish-acknowledged,
}

-- The claimed row stands in the outbox, under its id, and is not published.
pub record Claims (id : Uuid) (event : OutboxEvent) (t : Tables) : Type 0 where
  pub row : In event t.outbox
  pub same_id : event.id ≡ id
  pub unpublished : event.published ≡ false

-- `untouched`: no message, no write, and False is returned exactly when the claim found no row.
-- `unmarked`: SNS took the row's message and the row still looks
-- unsent. `published`: SNS took the message and the row is marked; only then the call returns True.
pub data Relayed (f : Formats) (db : Database) (c : Config) (id : Uuid) (w : World Tables Publisher)
    (o : Outcome Bool) (w' : World Tables Publisher) : Type 0 where
  untouched :
      ((o ≡ ok false) × ((claim id (db.locked w.tick) w.tables).0 ≡ ok none))
        ⊎ ((e : Exc) × (o ≡ raise e))
      → w'.tables ≡ w.tables
      → w'.process.sent ≡ w.process.sent
      → Relayed f db c id w o w'
  unmarked :
      (event : OutboxEvent) (arn : String)
      → Claims id event w.tables
      → ((o ≡ exit crash_exit_code) × (c.crash_after_publish ≡ true)) ⊎ ((e : Exc) × (o ≡ raise e))
      → w'.tables ≡ w.tables
      → w'.process.sent ≡ message_of f arn event ∷ w.process.sent
      → Relayed f db c id w o w'
  published :
      (event : OutboxEvent) (arn : String) (at : Timestamp)
      → Claims id event w.tables
      → o ≡ ok true
      → w'.tables ≡ update_row id (marked at) w.tables
      → w'.process.sent ≡ message_of f arn event ∷ w.process.sent
      → Relayed f db c id w o w'

one_or_none-In :
    (rows : List OutboxEvent) (event : OutboxEvent)
    → one_or_none rows ≡ ok (some event)
    → In event rows
one_or_none-In [] event h = cc
one_or_none-In (x ∷ []) event h = inl (cc)
one_or_none-In (x ∷ y ∷ r) event h = cc

one_or_none-ne-exit : (rows : List OutboxEvent) (code : ℕ) → one_or_none rows ≢ exit code
one_or_none-ne-exit [] code h = cc
one_or_none-ne-exit (x ∷ []) code h = cc
one_or_none-ne-exit (x ∷ y ∷ r) code h = cc

module _ (id : Uuid) (locked : Uuid → Bool) where
  abbrev claimable : OutboxEvent → Bool
  claimable e = e.id == id && not e.published && not (locked e.id)

  claimable-unpublished :
      (e : OutboxEvent) → claimable e ≡ true → (e.id ≡ id) × (e.published ≡ false)
  claimable-unpublished e h = ground arith

  -- A claim that finds a row finds one of the table that is under its id and unpublished.
  pub claim-Claims :
      (t : Tables) (event : OutboxEvent)
      → (claim id locked t).0 ≡ ok (some event)
      → Claims id event t
  unfolding claim
  claim-Claims t event h =
      let (row, pass) = In-select claimable t.outbox event (one_or_none-In _ event h) in
      let (same_id, unpublished) = claimable-unpublished event pass in
      record { row = row; same_id = same_id; unpublished = unpublished }

  pub claim-tables : (t : Tables) → (claim id locked t).1 ≡ t
  unfolding claim
  claim-tables t = refl

module _ (f : Formats) (db : Database) (sns : Sns) (host : Host) (c : Config) (id : Uuid)
    (w : World Tables Publisher) where
  abbrev one : Outcome Bool × World Tables Publisher
  one = relay_one f db sns host c id w

  module _ (event : OutboxEvent) (claims : Claims id event w.tables) where
    abbrev sent_by : Outcome String × Tables × World Tables Publisher
    sent_by = publish f sns c event w.tables (ticked w)

    module _ (calm : db.fault w.tick ≡ none)
        (found : claim id (db.locked w.tick) w.tables ≡ (ok (some event), w.tables)) where
      publish_raises : (e : Exc) → sent_by.0 ≡ raise e → Relayed f db c id w one.0 one.1
      unfolding relay_one
      publish_raises e p = elim (publish-sent f sns c event w.tables (ticked w)) [
        | inl none_sent ↦
            untouched (inr (e, ground arith))
              (ground (arith, publish-committed f sns c event w.tables (ticked w))) (ground arith)
        | inr one_sent ↦
            unmarked event (target f sns c event w.tables (ticked w)) claims (inr (e, ground arith))
              (ground (arith, publish-committed f sns c event w.tables (ticked w))) (ground arith)
      ]

      publish_returns : (m : String) → sent_by.0 ≡ ok m → Relayed f db c id w one.0 one.1
      unfolding relay_one
      publish_returns m p = elim (Bool-cases c.crash_after_publish) [
        | inl crash ↦
            unmarked event (target f sns c event w.tables (ticked w)) claims
              (inl (ground arith, crash)) (ground (arith, committed)) (ground (arith, delivered))
        | inr on ↦ elim (Option-cases (db.fault sent_by.2.tick)) [
          | inl committing ↦
              published event (target f sns c event w.tables (ticked w)) (host.now sent_by.2.tick)
                claims (ground arith)
                (ground (arith, claims.same_id, publish-tables f sns c event w.tables (ticked w)))
                (ground (arith, delivered))
          | inr (e, refused) ↦
              unmarked event (target f sns c event w.tables (ticked w)) claims
                (inr (e, ground arith)) (ground (arith, committed)) (ground (arith, delivered))
        ]
      ]
        where
          committed : sent_by.2.tables ≡ w.tables
          committed = publish-committed f sns c event w.tables (ticked w)

          delivered :
              sent_by.2.process.sent
              ≡ message_of f (target f sns c event w.tables (ticked w)) event ∷ w.process.sent
          delivered = publish-acknowledged f sns c event w.tables (ticked w) m p

      publish_ends : (o : Outcome String) → sent_by.0 ≡ o → Relayed f db c id w one.0 one.1
      publish_ends (ok m) p = publish_returns m p
      publish_ends (raise e) p = publish_raises e p
      publish_ends (exit code) p = absurd (publish-ne-exit f sns c event w.tables (ticked w) code p)

  claim_ends :
      (o : Outcome (Option OutboxEvent))
      → (claim id (db.locked w.tick) w.tables).0 ≡ o
      → db.fault w.tick ≡ none
      → Relayed f db c id w one.0 one.1
  unfolding relay_one
  claim_ends (ok none) p calm = elim (Option-cases (db.fault (suc w.tick))) [
    | inl commits ↦
        untouched (inl (ground arith, p))
          (ground (arith, claim-tables id (db.locked w.tick) w.tables)) (ground arith)
    | inr (e, refused) ↦ untouched (inr (e, ground arith)) (ground arith) (ground arith)
  ]
  claim_ends (ok (some event)) p calm =
      publish_ends event (claim-Claims id (db.locked w.tick) w.tables event p) calm
        (λ i. (p i, w.tables))
        (sent_by event (claim-Claims id (db.locked w.tick) w.tables event p)).0 refl
  claim_ends (raise e) p calm = untouched (inr (e, ground arith)) (ground arith) (ground arith)
  claim_ends (exit code) p calm = absurd (one_or_none-ne-exit _ code p)

  -- Every branch of `relay_one`, whatever the database and SNS answer.
  pub relay_one-Relayed : Relayed f db c id w one.0 one.1
  unfolding relay_one
  relay_one-Relayed = elim (Option-cases (db.fault w.tick)) [
    | inl calm ↦ claim_ends (claim id (db.locked w.tick) w.tables).0 refl calm
    | inr (e, refused) ↦ untouched (inr (e, ground arith)) (ground arith) (ground arith)
  ]

  -- A message is sent only for a row of the table.
  pub relay_one-sends :
      (message : Message)
      → one.1.process.sent ≡ message ∷ w.process.sent
      → (event : OutboxEvent) × Claims id event w.tables
  relay_one-sends message sent = elim relay_one-Relayed [
    | untouched _ _ same ↦ absurd (omega (arith, ap length (sym same ∙ sent)))
    | unmarked event _ claims _ _ _ ↦ (event, claims)
    | published event _ _ claims _ _ _ ↦ (event, claims)
  ]
