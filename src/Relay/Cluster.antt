-- ===== src/Relay/Cluster.antt =====
-- relay/service.py in several processes on one database: the sessions of `relay_one` interleave.
-- A session that has claimed a row holds the row's lock until it commits, rolls back or dies. The
-- statements of a session are steps, and so are the transactions of `record_failure` and of the Order
-- Service, in any order. A session's publish makes SNS take its message, and boto3 may send it again
-- where an answer is lost (the `retries` of shared/aws.py).
pub mod Counting
pub mod Accounts
pub mod Once
pub mod Sessions
pub mod Process
use outbox_fanout.Prelude.{
  count, ℕ, suc, ◌+◌, String, Bool, true, false, ◌&&◌, not, ◌≡◌, List, [], ◌∷◌, ◌++◌, map, ◌==◌,
  ltb, if◌then◌else◌,
}
use outbox_fanout.Formats.{Formats, Uuid, Timestamp}
use outbox_fanout.Tables.{OutboxEvent, Tables, has_event}
use outbox_fanout.Relay.Publisher.{Message, message_of}
use outbox_fanout.Relay.Service.{update_row, marked, bumped, parked}
use outbox_fanout.Relay.Effects.{Claims}

-- A session of a relay process: the row that it has locked, and whether SNS took the row's message.
pub record Session : Type 0 where
  pub relay : ℕ
  pub event : OutboxEvent
  pub sent : Bool

-- `sent` has the messages that SNS took, each with its row's id, the newest first, and `broken` the
-- rows of the sessions that ended between their publish and their commit. `retried` has the rows of
-- the messages that a retry inside boto3 made SNS take once more.
pub record Cluster : Type 0 where
  pub tables : Tables
  pub sessions : List Session
  pub sent : List (Uuid × Message)
  pub broken : List Uuid
  pub retried : List Uuid

abbrev pub holds : Uuid → Session → Bool
holds id s = s.event.id == id

-- Another session holds the row's lock.
abbrev pub locked : List Session → Uuid → Bool
locked sessions id = ltb 0 (count (holds id) sessions)

abbrev pub ended : Session → List Uuid → List Uuid
ended s broken = if s.sent then s.event.id ∷ broken else broken

pub data Step (f : Formats) (s : Cluster) : Cluster → Type 0 where
  -- FOR UPDATE SKIP LOCKED: an unpublished row that nobody holds
  claims :
      (relay : ℕ) (event : OutboxEvent)
      → Claims event.id event s.tables
      → locked s.sessions event.id ≡ false
      → Step f s (record s {
        sessions = record { relay = relay; event = event; sent = false } ∷ s.sessions;
      })
  -- SNS takes the message, whatever the caller is told
  sends :
      (relay : ℕ) (event : OutboxEvent) (arn : String) (front back : List Session)
      → s.sessions ≡ front ++ (record { relay = relay; event = event; sent = false } ∷ back)
      → Step f s (record s {
        sessions = front ++ (record { relay = relay; event = event; sent = true } ∷ back);
        sent = (event.id, message_of f arn event) ∷ s.sent;
      })
  -- a retry inside boto3 of a publish that SNS had taken, with the session still open
  retries :
      (relay : ℕ) (event : OutboxEvent) (arn : String) (front back : List Session)
      → s.sessions ≡ front ++ (record { relay = relay; event = event; sent = true } ∷ back)
      → Step f s (record s {
        sent = (event.id, message_of f arn event) ∷ s.sent;
        retried = event.id ∷ s.retried;
      })
  -- the row is marked, and the session commits
  commits :
      (relay : ℕ) (event : OutboxEvent) (at : Timestamp) (front back : List Session)
      → s.sessions ≡ front ++ (record { relay = relay; event = event; sent = true } ∷ back)
      → Step f s
          (record s { tables = update_row event.id (marked at) s.tables; sessions = front ++ back })
  -- an exception, a refused commit or the death of the process: a rollback
  ends :
      (session : Session) (front back : List Session)
      → s.sessions ≡ front ++ (session ∷ back)
      → Step f s (record s { sessions = front ++ back; broken = ended session s.broken })
  -- `record_failure`, whose UPDATE waits for the row's lock
  counts :
      (id : Uuid) (reason : String)
      → locked s.sessions id ≡ false
      → Step f s (record s { tables = update_row id (bumped reason) s.tables })
  gives_up :
      (id : Uuid) (reason : String) (at : Timestamp)
      → locked s.sessions id ≡ false
      → Step f s
          (record s { tables = update_row id (parked at) (update_row id (bumped reason) s.tables) })
  -- an order's event, under a new key
  stores :
      (event : OutboxEvent)
      → has_event event.id s.tables.outbox ≡ false
      → event.published ≡ false
      → Step f s
          (record s { tables = record s.tables { outbox = s.tables.outbox ++ (event ∷ []) } })

-- Some steps, one after another.
pub data Steps (f : Formats) : Cluster → Cluster → Type 0 where
  none_more : (s : Cluster) → Steps f s s
  then_more : (s t u : Cluster) → Step f s t → Steps f t u → Steps f s u
