-- ===== src/Relay/Service.antt =====
-- relay/service.py: claim an unpublished outbox row, publish it, mark it.
use outbox_fanout.Prelude.{
  ℕ, ◌+◌, String, Bool, true, false, ◌&&◌, ◌||◌, not, Option, none, some, List, [], ◌∷◌, map, ltb,
  leb, ◌==◌, str_eq, any, select, update, take, length, is_none, truncate, if◌then◌else◌,
}
use outbox_fanout.Prelude.Sort.{order_by}
use outbox_fanout.Outcome.{Exc, client_error, database_error, Outcome, ok, raise, exit}
use outbox_fanout.Db.{Database, Action, pure, kill, statement, ◌>>=◌, ◌>>◌, session_scope}
use outbox_fanout.Formats.{Formats, Uuid, Timestamp}
use outbox_fanout.Tables.{OutboxEvent, Tables, fits}
use outbox_fanout.Config.{Config}
use outbox_fanout.Host.{Host}
use outbox_fanout.Relay.Publisher.{Sns, Publisher, RelayQuery, code_of, publish}

abbrev pub crash_exit_code : ℕ
crash_exit_code = 17

-- _PERMANENT_SNS_ERRORS
abbrev pub permanent_sns_errors : List String
permanent_sns_errors =
    "InvalidParameter" ∷ "InvalidParameterValue" ∷ "ParameterValueInvalid" ∷ "EntityTooLarge"
    ∷ "AuthorizationError" ∷ "InvalidSecurity" ∷ "KMSAccessDenied" ∷ "KMSInvalidStateException" ∷ []

unfoldable pub is_permanent : Exc → Bool
is_permanent (client_error code) = any (str_eq (code_of code)) permanent_sns_errors
is_permanent _ = false

abbrev pub has_id : Uuid → OutboxEvent → Bool
has_id id e = e.id == id

-- `.where(OutboxEvent.id == event_id).values(...)`
abbrev pub update_row : Uuid → (OutboxEvent → OutboxEvent) → Tables → Tables
update_row id change t = record t { outbox = update (has_id id) change t.outbox }

-- The WHERE clauses of `pending_event_ids`.
abbrev pub is_pending : ℕ → OutboxEvent → Bool
is_pending max e = not e.published && is_none e.failed_at && ltb e.attempts max

-- The first row of a result: `scalar_one`, and `one_or_none` on a primary key.
abbrev pub scalar_one : List ℕ → Outcome ℕ
scalar_one [] = raise database_error
scalar_one (n ∷ []) = ok n
scalar_one (n ∷ m ∷ r) = raise database_error

abbrev pub one_or_none : List OutboxEvent → Outcome (Option OutboxEvent)
one_or_none [] = ok none
one_or_none (e ∷ []) = ok (some e)
one_or_none (e ∷ e' ∷ r) = raise database_error

abbrev pub marked : Timestamp → OutboxEvent → OutboxEvent
marked at e = record e { published = true; published_at = some at }

abbrev pub bumped : String → OutboxEvent → OutboxEvent
bumped reason e = record e { attempts = e.attempts + 1; last_error = some reason }

abbrev pub parked : Timestamp → OutboxEvent → OutboxEvent
parked at e = record e { failed_at = some at }

-- The UPDATE of the counter, with RETURNING. A reason that the column cannot hold is refused.
unfoldable pub bump_attempts : Uuid → String → Tables → Outcome ℕ × Tables
bump_attempts id reason t =
    if fits 500 (some reason)
    then (
      scalar_one
          (map (λ e. e.attempts) (select (has_id id) (update_row id (bumped reason) t).outbox)),
      update_row id (bumped reason) t,
    )
    else (raise database_error, t)

-- SELECT … FOR UPDATE SKIP LOCKED on the row, if it is not published
unfoldable pub claim : Uuid → (Uuid → Bool) → Tables → Outcome (Option OutboxEvent) × Tables
claim id locked t =
    (one_or_none (select (λ e. e.id == id && not e.published && not (locked e.id)) t.outbox), t)

module _ (c : Config) where
  -- The rows that the SELECT of `pending_event_ids` returns.
  unfoldable pub pending_rows : ℕ → Tables → List OutboxEvent
  pending_rows limit t =
      take limit (order_by (λ e. e.created_at) (select (is_pending c.outbox_max_attempts) t.outbox))

  -- pending_event_ids
  unfoldable pub pending_event_ids : ℕ → Tables → List Uuid
  unfolding pending_rows
  pending_event_ids limit t = map (λ e. e.id) (pending_rows limit t)

module _ (db : Database) (host : Host) (c : Config) where
  -- The second statement of `record_failure`: park the row if it is out of chances.
  unfoldable pub park_if : Uuid → Bool → ℕ → RelayQuery ℕ
  park_if id permanent attempts t w =
      if permanent || leb c.outbox_max_attempts attempts
      then statement db (λ t'. (ok attempts, update_row id (parked (host.now w.tick)) t')) t w
      else (ok attempts, t, w)

  -- record_failure
  unfoldable pub record_failure : Uuid → Exc → Bool → Action Tables Publisher ℕ
  unfolding session_scope park_if
  record_failure id e permanent = session_scope db (do
    attempts ← statement db (bump_attempts id (truncate 500 (host.describe e)))
    park_if id permanent attempts)

module _ (f : Formats) (db : Database) (sns : Sns) (host : Host) (c : Config) where
  -- `event.published = True`, written at the commit
  unfoldable pub mark_published : Uuid → RelayQuery Bool
  mark_published id t w = (ok true, update_row id (marked (host.now w.tick)) t, w)

  -- The rest of `relay_one` behind its SELECT.
  unfoldable pub relay_claimed : Option OutboxEvent → RelayQuery Bool
  unfolding mark_published
  relay_claimed none = pure false
  relay_claimed (some event) = do
    publish f sns c event
    if c.crash_after_publish then kill crash_exit_code else mark_published event.id

  -- relay_one
  unfoldable pub relay_one : Uuid → Action Tables Publisher Bool
  unfolding session_scope claim relay_claimed
  relay_one id =
      session_scope db
        (do found ← (λ t w. statement db (claim id (db.locked w.tick)) t w); relay_claimed found)

  -- The `except` block of `relay_batch`: the failure is recorded, and only a permanent one lets the
  -- batch go on.
  abbrev pub after_recorded :
      Bool → Outcome ℕ → ℕ → (ℕ → Action Tables Publisher ℕ) → Action Tables Publisher ℕ
  after_recorded true (ok _) published next w = next published w
  after_recorded false (ok _) published next w = (ok published, w)
  after_recorded permanent (raise e) published next w = (raise e, w)
  after_recorded permanent (exit code) published next w = (exit code, w)

  unfoldable pub on_failure :
      Uuid → Exc → ℕ → (ℕ → Action Tables Publisher ℕ) → Action Tables Publisher ℕ
  on_failure id e published next w =
      let (o, w') = record_failure db host c id e (is_permanent e) w in
      after_recorded (is_permanent e) o published next w'

  -- One round of the loop, with the rest of the loop as `next`.
  abbrev pub after_one :
      Uuid → Outcome Bool → ℕ → (ℕ → Action Tables Publisher ℕ) → Action Tables Publisher ℕ
  after_one id (ok true) published next w = next (published + 1) w
  after_one id (ok false) published next w = next published w
  after_one id (raise e) published next w = on_failure id e published next w
  after_one id (exit code) published next w = (exit code, w)

  unfoldable pub relay_next : Uuid → ℕ → (ℕ → Action Tables Publisher ℕ) → Action Tables Publisher ℕ
  unfolding on_failure
  relay_next id published next w = let (o, w') = relay_one id w in after_one id o published next w'

  -- The loop of `relay_batch`.
  unfoldable pub relay_ids : List Uuid → ℕ → Action Tables Publisher ℕ
  relay_ids [] published w = (ok published, w)
  relay_ids (id ∷ ids) published w = relay_next id published (relay_ids ids) w

  -- The read of a batch, in a session of its own.
  unfoldable pub read_batch : Action Tables Publisher (List Uuid)
  unfolding session_scope
  read_batch =
      session_scope db (statement db (λ t. (ok (pending_event_ids c c.relay_batch_size t), t)))

  -- The result of `relay_batch` once its loop has ended.
  abbrev pub with_seen : ℕ → Outcome ℕ → Outcome (ℕ × ℕ)
  with_seen seen (ok published) = ok (published, seen)
  with_seen seen (raise e) = raise e
  with_seen seen (exit code) = exit code

  abbrev pub after_read : Outcome (List Uuid) → Action Tables Publisher (ℕ × ℕ)
  after_read (ok ids) w = let (o, w') = relay_ids ids 0 w in (with_seen (length ids) o, w')
  after_read (raise e) w = (raise e, w)
  after_read (exit code) w = (exit code, w)

  -- relay_batch
  unfoldable pub relay_batch : Action Tables Publisher (ℕ × ℕ)
  relay_batch w = let (o, w') = read_batch w in after_read o w'
