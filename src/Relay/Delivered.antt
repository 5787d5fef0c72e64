-- ===== src/Relay/Delivered.antt =====
-- A relay whose SNS takes every message: no poll fails, and each row is published.
use outbox_fanout.Prelude.{
  ℕ, zero, suc, ◌+◌, ◌*◌, ◌≤◌, String, Bool, true, false, ◌≡◌, refl, sym, subst, ◌⊎◌, inl, inr,
  Option-cases, List, [], ◌∷◌, select, map, length, arith, not, ◌&&◌, ◌==◌,
}
use outbox_fanout.Prelude.Predicates.{All, All-map₂, All-update, In, In-select}
use outbox_fanout.Prelude.Distinct.{Distinct}
use outbox_fanout.Outcome.{Outcome, ok, raise, exit}
use outbox_fanout.Db.{World, Database, Action, ticked}
use outbox_fanout.Formats.{Formats, Uuid}
use outbox_fanout.Tables.{OutboxEvent, Tables}
use outbox_fanout.Config.{Config}
use outbox_fanout.Host.{Host}
use outbox_fanout.Relay.Publisher.{
  Sns, Publisher, Message, accepted, acknowledged, message_of, publish, topic_arn,
}
use outbox_fanout.Relay.Service.{
  claim, has_id, marked, relay_one, after_one, relay_next, relay_ids, read_batch, after_read,
  relay_batch, is_pending,
}
use outbox_fanout.Relay.Main.{after_poll, poll_loop, main}
use outbox_fanout.Relay.Effects.{Relayed, untouched, unmarked, published, relay_one-Relayed}
use outbox_fanout.Relay.Safety.{
  ids, NothingLost, Delivered, main-NothingLost, main-content, content, same_keys,
}
use outbox_fanout.Relay.Served.{IsServed}
use outbox_fanout.Relay.Success.{relay_one-publish}
use outbox_fanout.Relay.Drain.{IsSettled, poll_loop-IsSettled}

-- SNS has the topic and acknowledges each message.
pub record IsTaking (sns : Sns) : Type 0 where
  pub topic : (n : ℕ) (name : String) → (arn : String) × (sns.create_topic n name ≡ accepted arn)
  pub takes : (n : ℕ) (m : Message) → (id : String) × (sns.publish n m ≡ acknowledged id)

-- A row that is published, or that a poll may still publish.
abbrev pub IsOpen : Config → OutboxEvent → Type 0
IsOpen c e = (e.published ≡ true) ⊎ (is_pending c.outbox_max_attempts e ≡ true)

-- Keys are distinct, and each row is open.
record AllOpen (c : Config) (t : Tables) : Type 0 where
  keys : Distinct (ids t.outbox)
  open_rows : All (IsOpen c) t.outbox

module _ (f : Formats) (db : Database) (sns : Sns) (host : Host) (c : Config)
    (served : IsServed db c) (taking : IsTaking sns) where
  publish-ok :
      (event : OutboxEvent) (t : Tables) (w : World Tables Publisher)
      → (m : String) × ((publish f sns c event t w).0 ≡ ok m)
  unfolding publish
  publish-ok event t w = elim (Option-cases w.process.topic_arn) [
    | inl uncached ↦
        let (arn, resolved) = taking.topic w.tick c.sns_topic_name in
        let (m, taken) = taking.takes (suc w.tick) (message_of f arn event) in
        (m, ground (arith, uncached, resolved, taken))
    | inr (arn, known) ↦
        let (m, taken) = taking.takes w.tick (message_of f arn event) in
        (m, ground (arith, known, taken))
  ]

  abbrev claimable : Uuid → World Tables Publisher → OutboxEvent → Bool
  claimable id w e = e.id == id && not e.published && not (db.locked w.tick e.id)

  nothing_claimed :
      (id : Uuid) (w : World Tables Publisher)
      → select (claimable id w) w.tables.outbox ≡ []
      → (relay_one f db sns host c id w).0 ≡ ok false
  unfolding relay_one claim
  nothing_claimed id w p = ground (arith, p, served.answers w.tick, served.answers (suc w.tick))

  relay_one-ok :
      (id : Uuid) (w : World Tables Publisher)
      → Distinct (ids w.tables.outbox)
      → (b : Bool) × ((relay_one f db sns host c id w).0 ≡ ok b)
  relay_one-ok id w keys = found _ refl
    where
      found :
          (rows : List OutboxEvent)
          → select (claimable id w) w.tables.outbox ≡ rows
          → (b : Bool) × ((relay_one f db sns host c id w).0 ≡ ok b)
      found [] p = (false, nothing_claimed id w p)
      found (e ∷ rows) p =
          let (stored, test) =
            In-select (claimable id w) w.tables.outbox e (subst (In e) (sym p) (inl refl)) in
          let (m, taken) = publish-ok e w.tables (ticked w) in
          (
            true,
            subst (λ k. (relay_one f db sns host c k w).0 ≡ ok true) (ground (arith, test))
                (relay_one-publish f db sns host c w e m served keys stored (ground (arith, test))
                  taken).0,
          )

  Relayed-AllOpen :
      {id : Uuid} {w w' : World Tables Publisher} {o : Outcome Bool}
      → Relayed f db c id w o w'
      → AllOpen c w.tables
      → AllOpen c w'.tables
  Relayed-AllOpen (untouched _ t s) h = subst (AllOpen c) (sym t) h
  Relayed-AllOpen (unmarked event arn _ _ t s) h = subst (AllOpen c) (sym t) h
  Relayed-AllOpen {id} {w} (published event arn at _ _ t s) h = subst (AllOpen c) (sym t) (record {
    keys = same_keys id (marked at) w.tables (λ e. refl) h.keys;
    open_rows =
        All-update (has_id id) (marked at) w.tables.outbox (λ e _ k. inl refl) (λ e _ k. k)
          h.open_rows;
  })

  after_one-AllOpen :
      (id : Uuid) (b : Bool) (n : ℕ) (next : ℕ → Action Tables Publisher ℕ)
      (w : World Tables Publisher)
      → ((k : ℕ) (w : World Tables Publisher) → AllOpen c w.tables → AllOpen c (next k w).1.tables)
      → AllOpen c w.tables
      → AllOpen c (after_one f db sns host c id (ok b) n next w).1.tables
  after_one-AllOpen id true n next w rest h = rest (n + 1) w h
  after_one-AllOpen id false n next w rest h = rest n w h

  -- No row of a batch fails, so nothing is counted or parked.
  relay_ids-AllOpen :
      (es : List Uuid) (n : ℕ) (w : World Tables Publisher)
      → AllOpen c w.tables
      → AllOpen c (relay_ids f db sns host c es n w).1.tables
  unfolding relay_ids relay_next
  relay_ids-AllOpen [] n w h = h
  relay_ids-AllOpen (id ∷ es) n w h =
      let (b, returned) = relay_one-ok id w h.keys in
      rw returned (
        after_one-AllOpen id b n (relay_ids f db sns host c es) _ (relay_ids-AllOpen es)
          (Relayed-AllOpen (relay_one-Relayed f db sns host c id w) h))

  after_read-AllOpen :
      (o : Outcome (List Uuid)) (w : World Tables Publisher)
      → AllOpen c w.tables
      → AllOpen c (after_read f db sns host c o w).1.tables
  after_read-AllOpen (ok es) w h = relay_ids-AllOpen es 0 w h
  after_read-AllOpen (raise e) w h = h
  after_read-AllOpen (exit code) w h = h

  read_batch-AllOpen :
      (w : World Tables Publisher)
      → AllOpen c w.tables
      → AllOpen c (read_batch f db sns host c w).1.tables
  unfolding read_batch
  read_batch-AllOpen w h = ground arith

  after_poll-AllOpen :
      (o : Outcome (ℕ × ℕ)) (next : Action Tables Publisher Unit) (w : World Tables Publisher)
      → ((w : World Tables Publisher) → AllOpen c w.tables → AllOpen c (next w).1.tables)
      → AllOpen c w.tables
      → AllOpen c (after_poll f db sns host c o next w).1.tables
  after_poll-AllOpen (ok counts) next w rest h = rest w h
  after_poll-AllOpen (raise e) next w rest h = rest w h
  after_poll-AllOpen (exit code) next w rest h = h

  poll_loop-AllOpen :
      (polls : ℕ) (w : World Tables Publisher)
      → AllOpen c w.tables
      → AllOpen c (poll_loop f db sns host c polls w).1.tables
  unfolding poll_loop relay_batch
  poll_loop-AllOpen zero w h = h
  poll_loop-AllOpen (suc polls) w h =
      after_poll-AllOpen _ _ _ (poll_loop-AllOpen polls)
        (after_read-AllOpen _ _ (read_batch-AllOpen w h))

  -- A row that is settled and open is published.
  settled-open : (e : OutboxEvent) → IsSettled c e → IsOpen c e → e.published ≡ true
  settled-open e done (inl p) = p
  settled-open e done (inr due) = ground (arith, done, due)

  resolved-tables : (w : World Tables Publisher) → (topic_arn sns c w.tables w).2.tables ≡ w.tables
  unfolding topic_arn
  resolved-tables w = ground arith

  settles :
      (polls : ℕ) (w : World Tables Publisher)
      → AllOpen c w.tables
      → c.outbox_max_attempts * length w.tables.outbox ≤ polls
      → All (λ e. e.published ≡ true) (poll_loop f db sns host c polls w).1.tables.outbox
  settles polls w h enough =
      All-map₂ (IsSettled c) (IsOpen c) _ settled-open
        (poll_loop-IsSettled f db sns host c polls w served h.keys enough)
        (poll_loop-AllOpen polls w h).open_rows

  -- Where the database answers, no row is locked, no crash is injected, a batch has room, the keys of
  -- the outbox are distinct, and SNS has the topic and acknowledges each message: from an outbox whose
  -- rows are each published, with a message that SNS took, or due, a run of the relay with as many
  -- polls as the rows have attempts together ends with each row published and its message taken, and
  -- with what the Order Service wrote of the rows unchanged.
  pub main-Delivered :
      (polls : ℕ) (w : World Tables Publisher)
      → NothingLost f w.tables w.process.sent
      → All (IsOpen c) w.tables.outbox
      → c.outbox_max_attempts * length w.tables.outbox ≤ polls
      → All
          (λ e. (e.published ≡ true) × Delivered f (main f db sns host c polls w).1.process.sent e)
          (main f db sns host c polls w).1.tables.outbox
        × (map content (main f db sns host c polls w).1.tables.outbox ≡ map content w.tables.outbox)
  unfolding main
  main-Delivered polls w safe due enough =
      let q = resolved-tables w in
      (
        All-map₂ _ _ _ (λ e p d. (p, ground (arith, p, d)))
            (settles polls (topic_arn sns c w.tables w).2
              (subst (AllOpen c) (sym q) (record { keys = safe.keys; open_rows = due }))
              (subst (λ t. c.outbox_max_attempts * length t.outbox ≤ polls) (sym q) enough))
            (main-NothingLost f db sns host c polls w safe).delivered,
        (main-content f db sns host c polls w).0,
      )
