-- ===== src/Relay/Safety.antt =====
-- Publish, then mark: what no run of the relay can do to the outbox.
use outbox_fanout.Prelude.{
  ℕ, String, true, false, ◌<◌, not, ◌≡◌, refl, sym, ap, ◌∙◌, ◌⊎◌, inl, inr, List, ◌∷◌, map, none,
  Option, is_none, arith, subst, map-update, update-update, ==_iff,
}
use outbox_fanout.Prelude.Predicates.{All, In, All-In, All-of_In, All-map, All-update}
use outbox_fanout.Prelude.Distinct.{Distinct, Distinct-eq}
use outbox_fanout.Db.{World, Database}
use outbox_fanout.Json.{Fields}
use outbox_fanout.Formats.{Formats, Uuid, Timestamp}
use outbox_fanout.Tables.{OutboxEvent, Tables}
use outbox_fanout.Config.{Config}
use outbox_fanout.Host.{Host}
use outbox_fanout.Relay.Publisher.{Sns, Publisher, Message, body_of, build_message, message_of}
use outbox_fanout.Relay.Service.{update_row, has_id, marked, bumped, parked}
use outbox_fanout.Relay.Main.{main}
use outbox_fanout.Relay.Effects.{Claims}
use outbox_fanout.Relay.Induction.{Stable, main-Holds}

abbrev pub ids : List OutboxEvent → List Uuid
ids = map (λ e. e.id)

abbrev pub bodies : List Message → List String
bodies = map (λ m. m.body)

-- What the Order Service wrote of a row: all columns but the relay's own bookkeeping.
pub record Content : Type 0 where
  pub id : Uuid
  pub order_id : Uuid
  pub event_type : Option String
  pub payload : Fields
  pub created_at : Timestamp

abbrev pub content : OutboxEvent → Content
content e = record {
  id = e.id;
  order_id = e.order_id;
  event_type = e.event_type;
  payload = e.payload;
  created_at = e.created_at;
}

-- The message of a row depends on its content only.
pub body_of-content :
    (f : Formats) (a b : OutboxEvent) → content a ≡ content b → body_of f a ≡ body_of f b
unfolding build_message
body_of-content f a b q = ground arith

-- An update that keeps the key of each row keeps keys distinct.
pub same_keys :
    (id : Uuid) (change : OutboxEvent → OutboxEvent) (t : Tables)
    → ((e : OutboxEvent) → (change e).id ≡ e.id)
    → Distinct (ids t.outbox)
    → Distinct (ids (update_row id change t).outbox)
same_keys id change t same keys =
    subst Distinct (sym (map-update (λ e. e.id) (has_id id) change t.outbox same)) keys

module _ (f : Formats) where
  -- The row's message was taken by SNS.
  abbrev pub Delivered : List Message → OutboxEvent → Type 0
  Delivered sent e = In (body_of f e) (bodies sent)

  -- No row is marked published unless SNS took its message. Keys are unique.
  pub record NothingLost (t : Tables) (sent : List Message) : Type 0 where
    pub keys : Distinct (ids t.outbox)
    pub delivered : All (λ e. (e.published ≡ false) ⊎ Delivered sent e) t.outbox

  -- What was delivered stays so when SNS takes one more message.
  later :
      (m : Message) (sent : List Message) (e : OutboxEvent)
      → (e.published ≡ false) ⊎ Delivered sent e
      → (e.published ≡ false) ⊎ Delivered (m ∷ sent) e
  later m sent e (inl unpublished) = inl unpublished
  later m sent e (inr there) = inr (inr there)

  sends-NothingLost :
      (id : Uuid) (event : OutboxEvent) (arn : String) (t : Tables) (sent : List Message)
      → Claims id event t
      → NothingLost t sent
      → NothingLost t (message_of f arn event ∷ sent)
  sends-NothingLost id event arn t sent claims h = record {
    keys = h.keys;
    delivered = All-map _ t.outbox (later (message_of f arn event) sent) h.delivered;
  }

  -- A row under the key of the claimed row is that row.
  claimed_row :
      {id : Uuid} {event : OutboxEvent} {t : Tables} (e : OutboxEvent)
      → Distinct (ids t.outbox)
      → Claims id event t
      → In e t.outbox
      → has_id id e ≡ true
      → e ≡ event
  claimed_row {id} {event} {t} e keys claims m h =
      Distinct-eq (λ e. e.id) t.outbox e event keys m claims.row
        ((==_iff e.id id).0 h ∙ sym claims.same_id)

  marks-NothingLost :
      (id : Uuid) (event : OutboxEvent) (arn : String) (at : Timestamp) (t : Tables)
      (sent : List Message)
      → Claims id event t
      → NothingLost t sent
      → NothingLost (update_row id (marked at) t) (message_of f arn event ∷ sent)
  unfolding build_message
  marks-NothingLost id event arn at t sent claims h = record {
    keys = same_keys id (marked at) t (λ e. refl) h.keys;
    delivered =
        All-update {P = λ e. In e t.outbox × ((e.published ≡ false) ⊎ Delivered sent e)} (has_id id)
          (marked at) t.outbox
          (λ e same m. inr (inl (ap (body_of f) (claimed_row e h.keys claims m.0 same))))
          (λ e other m. later (message_of f arn event) sent e m.1)
          (All-of_In t.outbox (λ e m. (m, All-In _ t.outbox e h.delivered m)));
  }

  -- A write of the relay's bookkeeping that leaves `published` alone.
  keeps-NothingLost :
      (id : Uuid) (change : OutboxEvent → OutboxEvent) (t : Tables) (sent : List Message)
      → ((e : OutboxEvent) → content (change e) ≡ content e)
      → ((e : OutboxEvent) → (change e).published ≡ e.published)
      → NothingLost t sent
      → NothingLost (update_row id change t) sent
  unfolding build_message
  keeps-NothingLost id change t sent same flag h = record {
    keys = same_keys id change t (λ e. ap (λ x. x.id) (same e)) h.keys;
    delivered =
        All-update (has_id id) change t.outbox (λ e _ d. moved e d) (λ e _ d. d) h.delivered;
  }
    where
      moved :
          (e : OutboxEvent)
          → (e.published ≡ false) ⊎ Delivered sent e
          → ((change e).published ≡ false) ⊎ Delivered sent (change e)
      moved e (inl unpublished) = inl (flag e ∙ unpublished)
      moved e (inr there) =
          inr
            (subst (λ b. In b (bodies sent)) (sym (body_of-content f (change e) e (same e))) there)

  NothingLost-stable : (max : ℕ) → Stable f max NothingLost
  NothingLost-stable max = record {
    sends = sends-NothingLost;
    marks = marks-NothingLost;
    bumps = λ id reason t sent short left h.
        keeps-NothingLost id (bumped reason) t sent (λ e. refl) (λ e. refl) h;
    gives_up = λ id reason at t sent short h.
        keeps-NothingLost id (parked at) _ sent (λ e. refl) (λ e. refl)
          (keeps-NothingLost id (bumped reason) t sent (λ e. refl) (λ e. refl) h);
  }

  -- The columns that the relay never writes, and the orders.
  abbrev pub SameContent : Tables → Tables → List Message → Type 0
  SameContent t₀ t sent = (map content t.outbox ≡ map content t₀.outbox) × (t.orders ≡ t₀.orders)

  keeps_content :
      (t₀ t : Tables) (id : Uuid) (change : OutboxEvent → OutboxEvent) (sent sent' : List Message)
      → ((e : OutboxEvent) → content (change e) ≡ content e)
      → SameContent t₀ t sent
      → SameContent t₀ (update_row id change t) sent'
  keeps_content t₀ t id change sent sent' same h =
      (map-update content (has_id id) change t.outbox same ∙ h.0, h.1)

  SameContent-stable : (max : ℕ) (t₀ : Tables) → Stable f max (SameContent t₀)
  SameContent-stable max t₀ = record {
    sends = λ id event arn t sent claims h. h;
    marks = λ id event arn at t sent claims h.
        keeps_content t₀ t id (marked at) sent sent (λ e. refl) h;
    bumps = λ id reason t sent short left h.
        keeps_content t₀ t id (bumped reason) sent sent (λ e. refl) h;
    gives_up = λ id reason at t sent short h.
        keeps_content t₀ (update_row id (bumped reason) t) id (parked at) sent sent (λ e. refl)
          (keeps_content t₀ t id (bumped reason) sent sent (λ e. refl) h);
  }

-- The flags that record one fact twice agree, and a parked row says why.
pub record IsConsistent (e : OutboxEvent) : Type 0 where
  pub dated : e.published ≡ not (is_none e.published_at)
  pub explained : (e.failed_at ≡ none) ⊎ ((is_none e.last_error ≡ false) × (0 < e.attempts))

abbrev pub AllConsistent : Tables → List Message → Type 0
AllConsistent t sent = All IsConsistent t.outbox

keeps_consistent :
    (id : Uuid) (change : OutboxEvent → OutboxEvent) (t : Tables) (sent : List Message)
    → ((e : OutboxEvent) → IsConsistent e → IsConsistent (change e))
    → AllConsistent t sent
    → AllConsistent (update_row id change t) sent
keeps_consistent id change t sent keep h =
    All-update (has_id id) change t.outbox (λ e _ k. keep e k) (λ e _ k. k) h

AllConsistent-stable : (f : Formats) (max : ℕ) → Stable f max AllConsistent
AllConsistent-stable f max = record {
  sends = λ id event arn t sent claims h. h;
  marks = λ id event arn at t sent claims h.
      keeps_consistent id (marked at) t sent
        (λ e k. record { dated = refl; explained = k.explained }) h;
  bumps = λ id reason t sent short left h.
      keeps_consistent id (bumped reason) t sent
        (λ e k. record { dated = k.dated; explained = inr (refl, omega arith) }) h;
  gives_up = λ id reason at t sent short h.
      subst (All IsConsistent)
        (sym (update-update (has_id id) (bumped reason) (parked at) t.outbox (λ e. refl)))
        (All-update (has_id id) (λ e. parked at (bumped reason e)) t.outbox
          (λ e _ k. record { dated = k.dated; explained = inr (refl, omega arith) }) (λ e _ k. k)
          h);
}

-- The keys of the outbox never change.
pub keys-stable : (f : Formats) (max : ℕ) → Stable f max (λ t sent. Distinct (ids t.outbox))
keys-stable f max = record {
  sends = λ id event arn t sent claims h. h;
  marks = λ id event arn at t sent claims h. same_keys id (marked at) t (λ e. refl) h;
  bumps = λ id reason t sent short left h. same_keys id (bumped reason) t (λ e. refl) h;
  gives_up = λ id reason at t sent short h.
      same_keys id (parked at) (update_row id (bumped reason) t) (λ e. refl)
        (same_keys id (bumped reason) t (λ e. refl) h);
}

module _ (f : Formats) (db : Database) (sns : Sns) (host : Host) (c : Config) (polls : ℕ)
    (w : World Tables Publisher) where
  abbrev after : World Tables Publisher
  after = (main f db sns host c polls w).1

  -- No run of the relay, whatever the database and SNS answer and wherever the process dies, marks a
  -- row published whose message SNS did not take, if that was so at the start and keys are unique.
  pub main-NothingLost :
      NothingLost f w.tables w.process.sent → NothingLost f after.tables after.process.sent
  main-NothingLost h =
      main-Holds f db sns host c (NothingLost f) (NothingLost-stable f c.outbox_max_attempts) polls
        w h

  -- No run adds, drops or reorders outbox rows, or writes a column of theirs other than its own
  -- bookkeeping, or any order.
  pub main-content :
      (map content after.tables.outbox ≡ map content w.tables.outbox)
      × (after.tables.orders ≡ w.tables.orders)
  main-content =
      main-Holds f db sns host c (SameContent f w.tables)
        (SameContent-stable f c.outbox_max_attempts w.tables) polls w (refl, refl)

  -- Every run keeps `published` and `published_at` in agreement on each row, and each parked row has
  -- a recorded error and at least one failed attempt, if that was so at the start.
  pub main-IsConsistent : All IsConsistent w.tables.outbox → All IsConsistent after.tables.outbox
  main-IsConsistent h =
      main-Holds f db sns host c AllConsistent (AllConsistent-stable f c.outbox_max_attempts) polls
        w h
