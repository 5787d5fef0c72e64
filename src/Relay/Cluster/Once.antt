-- ===== src/Relay/Cluster/Once.antt =====
-- The messages of a row (relay/service.py), over the interleavings of several relays.
use outbox_fanout.Prelude.{count, ◌+◌, ◌≤◌, ◌≡◌, refl, List, [], ◌∷◌, arith}
use outbox_fanout.Formats.{Formats, Uuid}
use outbox_fanout.Relay.Service.{has_id}
use outbox_fanout.Relay.Cluster.{Session, Cluster, holds, Steps}
use outbox_fanout.Relay.Cluster.Counting.{is_published, count_rows}
use outbox_fanout.Relay.Cluster.Accounts.{
  is_message_of, holds_sent, is_id, IsAccounted, Steps-IsAccounted,
}

-- Before the relays run: the keys are unique, nobody has a row, and SNS has taken no message.
pub record IsStart (s : Cluster) : Type 0 where
  pub keys : (id : Uuid) → count (has_id id) s.tables.outbox ≤ 1
  pub unsent : (id : Uuid) → count (is_published id) s.tables.outbox ≡ 0
  pub idle : s.sessions ≡ []
  pub silent : s.sent ≡ []
  pub whole : s.broken ≡ []
  pub unretried : s.retried ≡ []

start-IsAccounted : (id : Uuid) (s : Cluster) → IsStart s → IsAccounted id s
start-IsAccounted id s start = record {
  one_row = start.keys id;
  one_holder = rw start.idle (omega arith);
  held_row = rw start.idle (omega arith);
  balance = rw (start.idle, start.silent, start.whole, start.unretried, start.unsent id) refl;
}

-- A session that is about to mark a row holds it.
holds_sent-le :
    (id : Uuid) (sessions : List Session)
    → count (holds_sent id) sessions ≤ count (holds id) sessions
holds_sent-le id [] = omega arith
holds_sent-le id (x ∷ sessions) = ground (arith, holds_sent-le id sessions)

-- However the sessions of any number of relays interleave with each other, with failures and with new
-- orders, from a start where the keys are unique, no session is open, no row is marked and SNS has
-- taken no message: no two sessions ever hold one row; SNS takes a row's message at most once, and
-- once more for each session that ended between its publish and its commit and for each time that
-- boto3 sent it again; and it has taken the message of every row that is marked published.
pub Steps-once :
    (f : Formats) (s t : Cluster) (id : Uuid)
    → IsStart s
    → Steps f s t
    → (count (holds id) t.sessions ≤ 1)
      × (count (is_message_of id) t.sent
          ≤ count (is_id id) t.broken + count (is_id id) t.retried + 1)
      × (count (is_published id) t.tables.outbox ≤ count (is_message_of id) t.sent)
Steps-once f s t id start steps =
    let h = Steps-IsAccounted f id s t steps (start-IsAccounted id s start) in
    let rows = count_rows id t.tables.outbox in
    let about = holds_sent-le id t.sessions in
    (
      h.one_holder,
      omega (arith, h.balance, h.one_row, h.held_row, rows, about),
      omega (arith, h.balance),
    )
