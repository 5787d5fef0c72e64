-- ===== src/Relay/Cluster/Accounts.antt =====
-- The accounts of a row over the steps of the cluster (relay/service.py).
use outbox_fanout.Prelude.{
  count, subst, ℕ, ◌+◌, ◌≤◌, Bool, true, false, ◌&&◌, ◌≡◌, refl, sym, ap, ◌∙◌, inl, inr, List, [],
  ◌∷◌, ◌++◌, ◌==◌, ==_iff, arith, Bool-cases, update,
}
use outbox_fanout.Formats.{Formats, Uuid, Timestamp}
use outbox_fanout.Tables.{OutboxEvent, has_event}
use outbox_fanout.Relay.Publisher.{Message}
use outbox_fanout.Relay.Service.{has_id, update_row, marked, bumped, parked}
use outbox_fanout.Relay.Effects.{Claims}
use outbox_fanout.Relay.Cluster.{
  Session, Cluster, holds, locked, ended, Step, claims, sends, retries, commits, ends, counts,
  gives_up, stores, Steps, none_more, then_more,
}
use outbox_fanout.Relay.Cluster.Counting.{
  is_published, is_unpublished, count-append, count_middle, count-In, count-update, count_rows,
  marked-published, marked_elsewhere,
}

abbrev pub is_message_of : Uuid → Uuid × Message → Bool
is_message_of id m = m.0 == id

abbrev pub holds_sent : Uuid → Session → Bool
holds_sent id s = s.event.id == id && s.sent

abbrev pub is_id : Uuid → Uuid → Bool
is_id id other = other == id

fresh_rows :
    (id : Uuid) (rows : List OutboxEvent) → has_event id rows ≡ false → count (has_id id) rows ≡ 0
fresh_rows id [] h = refl
fresh_rows id (e ∷ rows) h = elim (Bool-cases (e.id == id)) [
  | inl here ↦ absurd (ground arith)
  | inr other ↦ ground (arith, fresh_rows id rows (rw other at h))
]

-- The id has one row at most, one session at most has it locked, and only while it is not published.
-- Each message of the row is accounted for: by a session that ended without its commit, by a retry
-- inside boto3, by the row's mark, or by the session that is about to mark it.
pub record IsAccounted (id : Uuid) (s : Cluster) : Type 0 where
  pub one_row : count (has_id id) s.tables.outbox ≤ 1
  pub one_holder : count (holds id) s.sessions ≤ 1
  pub held_row : count (holds id) s.sessions ≤ count (is_unpublished id) s.tables.outbox
  pub balance :
      count (is_message_of id) s.sent
      ≡ count (is_id id) s.broken
        + count (is_id id) s.retried
        + (count (is_published id) s.tables.outbox + count (holds_sent id) s.sessions)

module _ (f : Formats) (id : Uuid) (s : Cluster) (h : IsAccounted id s) where
  Claims-IsAccounted :
      (relay : ℕ) (event : OutboxEvent)
      → Claims event.id event s.tables
      → locked s.sessions event.id ≡ false
      → IsAccounted id (record s {
        sessions = record { relay = relay; event = event; sent = false } ∷ s.sessions;
      })
  Claims-IsAccounted relay event found free = elim (Bool-cases (event.id == id)) [
    | inl here ↦ record {
      one_row = h.one_row;
      one_holder = ground (arith, same_id here);
      held_row = ground (
        arith,
        same_id here,
        count-In (is_unpublished id) s.tables.outbox event found.row
            (ground (arith, found.unpublished)),
      );
      balance = ground (arith, h.balance);
    }
    | inr other ↦ record {
      one_row = h.one_row;
      one_holder = ground (arith, h.one_holder);
      held_row = ground (arith, h.held_row);
      balance = ground (arith, h.balance);
    }
  ]
    where
      same_id : (event.id == id) ≡ true → count (holds id) s.sessions ≡ 0
      same_id here =
          subst (λ i. count (holds i) s.sessions ≡ 0) ((==_iff event.id id).0 here) (ground arith)

  sends-IsAccounted :
      (relay : ℕ) (event : OutboxEvent) (m : Message) (front back : List Session)
      → s.sessions ≡ front ++ (record { relay = relay; event = event; sent = false } ∷ back)
      → IsAccounted id (record s {
        sessions = front ++ (record { relay = relay; event = event; sent = true } ∷ back);
        sent = (event.id, m) ∷ s.sent;
      })
  sends-IsAccounted relay event m front back e =
      let before : Session = record { relay = relay; event = event; sent = false } in
      let after : Session = record { relay = relay; event = event; sent = true } in
      let held = ap (count (holds id)) e ∙ count_middle (holds id) front back before in
      let about = ap (count (holds_sent id)) e ∙ count_middle (holds_sent id) front back before in
      record {
        one_row = h.one_row;
        one_holder = ground (arith, h.one_holder, held, count_middle (holds id) front back after);
        held_row = ground (arith, h.held_row, held, count_middle (holds id) front back after);
        balance = ground (arith, h.balance, about, count_middle (holds_sent id) front back after);
      }

  retries-IsAccounted :
      (event : OutboxEvent) (m : Message)
      → IsAccounted id (record s { sent = (event.id, m) ∷ s.sent; retried = event.id ∷ s.retried })
  retries-IsAccounted event m = record {
    one_row = h.one_row;
    one_holder = h.one_holder;
    held_row = h.held_row;
    balance = omega (arith, h.balance);
  }

  ends-IsAccounted :
      (session : Session) (front back : List Session)
      → s.sessions ≡ front ++ (session ∷ back)
      → IsAccounted id (record s { sessions = front ++ back; broken = ended session s.broken })
  ends-IsAccounted session front back e =
      let held = ap (count (holds id)) e ∙ count_middle (holds id) front back session in
      let about = ap (count (holds_sent id)) e ∙ count_middle (holds_sent id) front back session in
      record {
        one_row = h.one_row;
        one_holder = ground (arith, h.one_holder, held);
        held_row = ground (arith, h.held_row, held);
        balance = ground (arith, h.balance, about);
      }

  commits-IsAccounted :
      (relay : ℕ) (event : OutboxEvent) (at : Timestamp) (front back : List Session)
      → s.sessions ≡ front ++ (record { relay = relay; event = event; sent = true } ∷ back)
      → IsAccounted id
          (record s { tables = update_row event.id (marked at) s.tables; sessions = front ++ back })
  commits-IsAccounted relay event at front back e =
      let before : Session = record { relay = relay; event = event; sent = true } in
      let held = ap (count (holds id)) e ∙ count_middle (holds id) front back before in
      let about = ap (count (holds_sent id)) e ∙ count_middle (holds_sent id) front back before in
      let rows =
        count-update (has_id id) (has_id event.id) (marked at) s.tables.outbox (λ x. refl) in
      elim (Bool-cases (event.id == id)) [
        | inl here ↦
            let published =
              subst
                (λ i.
                  count (is_published i) (update (has_id event.id) (marked at) s.tables.outbox)
                  ≡ count (has_id i) s.tables.outbox)
                ((==_iff event.id id).0 here) (marked-published event.id at s.tables.outbox) in
            record {
              one_row = ground (arith, h.one_row, rows);
              one_holder = ground (arith, h.one_holder, held);
              held_row = ground (arith, h.one_holder, held, here);
              balance = ground (
                arith,
                h.balance,
                h.one_row,
                h.held_row,
                held,
                about,
                published,
                count_rows id s.tables.outbox,
              );
            }
        | inr other ↦
            let (published, unpublished) =
              marked_elsewhere event.id at id s.tables.outbox
                (λ p. ground (arith, (==_iff event.id id).1 (sym p))) in
            record {
              one_row = ground (arith, h.one_row, rows);
              one_holder = ground (arith, h.one_holder, held);
              held_row = ground (arith, h.held_row, held, unpublished);
              balance = ground (arith, h.balance, about, published);
            }
      ]

  -- A write that leaves each row's id and mark alone.
  keeps-IsAccounted :
      (other : Uuid) (change : OutboxEvent → OutboxEvent)
      → ((e : OutboxEvent) → ((change e).id ≡ e.id) × ((change e).published ≡ e.published))
      → IsAccounted id (record s { tables = update_row other change s.tables })
  keeps-IsAccounted other change same =
      let published =
        count-update (is_published id) (has_id other) change s.tables.outbox
          (λ e. ground (arith, same e)) in
      let unpublished =
        count-update (is_unpublished id) (has_id other) change s.tables.outbox
          (λ e. ground (arith, same e)) in
      let rows =
        count-update (has_id id) (has_id other) change s.tables.outbox
          (λ e. ground (arith, same e)) in
      record {
        one_row = omega (arith, h.one_row, rows);
        one_holder = h.one_holder;
        held_row = omega (arith, h.held_row, unpublished);
        balance = omega (arith, h.balance, published);
      }

  stores-IsAccounted :
      (event : OutboxEvent)
      → has_event event.id s.tables.outbox ≡ false
      → event.published ≡ false
      → IsAccounted id
          (record s { tables = record s.tables { outbox = s.tables.outbox ++ (event ∷ []) } })
  stores-IsAccounted event fresh unpublished =
      let rows = count-append (has_id id) s.tables.outbox (event ∷ []) in
      let published = count-append (is_published id) s.tables.outbox (event ∷ []) in
      let still = count-append (is_unpublished id) s.tables.outbox (event ∷ []) in
      record {
        one_row = elim (Bool-cases (event.id == id)) [
          | inl here ↦ ground (
            arith,
            rows,
            subst (λ i. count (has_id i) s.tables.outbox ≡ 0) ((==_iff event.id id).0 here)
                (fresh_rows event.id s.tables.outbox fresh),
          )
          | inr other ↦ ground (arith, rows, h.one_row)
        ];
        one_holder = h.one_holder;
        held_row = ground (arith, h.held_row, still);
        balance = ground (arith, h.balance, published);
      }

module _ (f : Formats) (id : Uuid) where
  Step-IsAccounted : (s t : Cluster) → Step f s t → IsAccounted id s → IsAccounted id t
  Step-IsAccounted s t (claims relay event found free) h =
      Claims-IsAccounted f id s h relay event found free
  Step-IsAccounted s t (sends relay event arn front back e) h =
      sends-IsAccounted f id s h relay event _ front back e
  Step-IsAccounted s t (retries relay event arn front back e) h =
      retries-IsAccounted f id s h event _
  Step-IsAccounted s t (commits relay event at front back e) h =
      commits-IsAccounted f id s h relay event at front back e
  Step-IsAccounted s t (ends session front back e) h =
      ends-IsAccounted f id s h session front back e
  Step-IsAccounted s t (counts other reason free) h =
      keeps-IsAccounted f id s h other (bumped reason) (λ e. (refl, refl))
  Step-IsAccounted s t (gives_up other reason at free) h =
      keeps-IsAccounted f id (record s { tables = update_row other (bumped reason) s.tables })
        (keeps-IsAccounted f id s h other (bumped reason) (λ e. (refl, refl))) other (parked at)
        (λ e. (refl, refl))
  Step-IsAccounted s t (stores event fresh unpublished) h =
      stores-IsAccounted f id s h event fresh unpublished

  -- Every interleaving keeps the accounts.
  pub Steps-IsAccounted : (s t : Cluster) → Steps f s t → IsAccounted id s → IsAccounted id t
  Steps-IsAccounted s t (none_more _) h = h
  Steps-IsAccounted s t (then_more _ u _ step rest) h =
      Steps-IsAccounted u t rest (Step-IsAccounted s u step h)
