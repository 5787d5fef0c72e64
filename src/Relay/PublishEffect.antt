-- ===== src/Relay/PublishEffect.antt =====
-- What a call of `publish` can have done, whatever SNS answers.
use outbox_fanout.Prelude.{String, ◌≡◌, ◌≢◌, ℕ, ◌⊎◌, ◌∷◌, arith}
use outbox_fanout.Outcome.{Outcome, ok, raise, exit}
use outbox_fanout.Db.{World}
use outbox_fanout.Formats.{Formats}
use outbox_fanout.Tables.{OutboxEvent, Tables}
use outbox_fanout.Config.{Config}
use outbox_fanout.Relay.Publisher.{Sns, Publisher, message_of, publish, topic_arn}

-- the topic of the message, "" if there is none to send to
abbrev arn_of : Outcome String → String
arn_of (ok arn) = arn
arn_of (raise e) = ""
arn_of (exit code) = ""

module _ (f : Formats) (sns : Sns) (c : Config) (event : OutboxEvent) (t : Tables) where
  module _ (w : World Tables Publisher) where
    abbrev pub target : String
    target = arn_of (topic_arn sns c t w).0

    pub publish-tables : (publish f sns c event t w).1 ≡ t
    unfolding publish
    publish-tables = ground arith

    pub publish-committed : (publish f sns c event t w).2.tables ≡ w.tables
    unfolding publish
    publish-committed = ground arith

    pub publish-ne-exit : (code : ℕ) → (publish f sns c event t w).0 ≢ exit code
    unfolding publish
    publish-ne-exit code h = ground arith

    -- SNS took the row's message, or nothing.
    pub publish-sent :
        ((publish f sns c event t w).2.process.sent ≡ w.process.sent)
        ⊎ ((publish f sns c event t w).2.process.sent ≡ message_of f target event ∷ w.process.sent)
    unfolding publish
    publish-sent = ground arith

    -- A MessageId is returned only for a message that SNS took.
    pub publish-acknowledged :
        (id : String)
        → (publish f sns c event t w).0 ≡ ok id
        → (publish f sns c event t w).2.process.sent ≡ message_of f target event ∷ w.process.sent
    unfolding publish
    publish-acknowledged id h = ground arith
