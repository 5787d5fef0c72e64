-- ===== src/Relay/Cluster/Process.antt =====
-- A whole relay process (main of relay/main.py) as steps of the cluster.
use outbox_fanout.Prelude.{ℕ, String, false, true, ◌≡◌, refl, sym, ap, ◌∙◌, subst, List, [], ◌∷◌}
use outbox_fanout.Db.{World, Database}
use outbox_fanout.Formats.{Formats, Uuid, Timestamp}
use outbox_fanout.Tables.{OutboxEvent, Tables}
use outbox_fanout.Config.{Config}
use outbox_fanout.Host.{Host}
use outbox_fanout.Relay.Publisher.{Sns, Publisher, Message, message_of}
use outbox_fanout.Relay.Service.{update_row, marked, bumped, parked}
use outbox_fanout.Relay.Main.{main}
use outbox_fanout.Relay.Effects.{Claims}
use outbox_fanout.Relay.Induction.{Stable, main-Holds}
use outbox_fanout.Relay.Cluster.{
  Cluster, locked, claims, sends, commits, ends, counts, gives_up, Steps, none_more, then_more,
}
use outbox_fanout.Relay.Cluster.Sessions.{messages, Mirrors}

module _ (f : Formats) where
  Steps-trans : (s t u : Cluster) → Steps f s t → Steps f t u → Steps f s u
  Steps-trans s t u (none_more _) rest = rest
  Steps-trans s t u (then_more _ v _ step steps) rest =
      then_more s v u step (Steps-trans v t u steps rest)

  -- The cluster has come from `s₀` to these tables and messages, and no session is open.
  pub record HasReached (s₀ : Cluster) (t : Tables) (sent : List Message) : Type 0 where
    pub here : Cluster
    pub steps : Steps f s₀ here
    pub idle : here.sessions ≡ []
    pub tables : here.tables ≡ t
    pub taken : messages here.sent ≡ sent

  module _ (s₀ : Cluster) where
    -- One more step of a cluster that has no session open.
    module _ (t : Tables) (sent : List Message) (h : HasReached s₀ t sent) where
      free : (id : Uuid) → locked h.here.sessions id ≡ false
      free id = ap (λ l. locked l id) h.idle

      -- A claim and a publish.
      claimed : OutboxEvent → String → Cluster
      claimed event arn = record h.here {
        sessions = record { relay = 1; event = event; sent = true } ∷ h.here.sessions;
        sent = (event.id, message_of f arn event) ∷ h.here.sent;
      }

      to_claimed :
          (id : Uuid) (event : OutboxEvent) (arn : String)
          → Claims id event t
          → Steps f s₀ (claimed event arn)
      unfolding claimed
      to_claimed id event arn found = Steps-trans s₀ h.here _ h.steps (
          then_more h.here _ _
            (claims 1 event
              (subst (λ ts. Claims event.id event ts) (sym h.tables)
                (record { row = found.row; same_id = refl; unpublished = found.unpublished }))
              (free event.id))
            (then_more _ _ _ (sends 1 event arn [] h.here.sessions refl) (none_more _)))

      sends-HasReached :
          (id : Uuid) (event : OutboxEvent) (arn : String)
          → Claims id event t
          → HasReached s₀ t (message_of f arn event ∷ sent)
      unfolding claimed
      sends-HasReached id event arn found = record {
        here = record (claimed event arn) {
          sessions = h.here.sessions;
          broken = event.id ∷ h.here.broken;
        };
        steps = Steps-trans s₀ (claimed event arn) _ (to_claimed id event arn found) (
            then_more _ _ _
              (ends (record { relay = 1; event = event; sent = true }) [] h.here.sessions refl)
              (none_more _));
        idle = h.idle;
        tables = h.tables;
        taken = ap (λ ms. message_of f arn event ∷ ms) h.taken;
      }

      marks-HasReached :
          (id : Uuid) (event : OutboxEvent) (arn : String) (at : Timestamp)
          → Claims id event t
          → HasReached s₀ (update_row id (marked at) t) (message_of f arn event ∷ sent)
      unfolding claimed
      marks-HasReached id event arn at found = record {
        here = record (claimed event arn) {
          sessions = h.here.sessions;
          tables = update_row event.id (marked at) h.here.tables;
        };
        steps =
            Steps-trans s₀ (claimed event arn) _ (to_claimed id event arn found)
              (then_more _ _ _ (commits 1 event at [] h.here.sessions refl) (none_more _));
        idle = h.idle;
        tables =
            ap (λ i. update_row i (marked at) h.here.tables) found.same_id
            ∙ ap (update_row id (marked at)) h.tables;
        taken = ap (λ ms. message_of f arn event ∷ ms) h.taken;
      }

      bumps-HasReached :
          (id : Uuid) (reason : String) → HasReached s₀ (update_row id (bumped reason) t) sent
      bumps-HasReached id reason = record {
        here = record h.here { tables = update_row id (bumped reason) h.here.tables };
        steps =
            Steps-trans s₀ h.here _ h.steps
              (then_more _ _ _ (counts id reason (free id)) (none_more _));
        idle = h.idle;
        tables = ap (update_row id (bumped reason)) h.tables;
        taken = h.taken;
      }

      gives_up-HasReached :
          (id : Uuid) (reason : String) (at : Timestamp)
          → HasReached s₀ (update_row id (parked at) (update_row id (bumped reason) t)) sent
      gives_up-HasReached id reason at = record {
        here = record h.here {
          tables = update_row id (parked at) (update_row id (bumped reason) h.here.tables);
        };
        steps =
            Steps-trans s₀ h.here _ h.steps
              (then_more _ _ _ (gives_up id reason at (free id)) (none_more _));
        idle = h.idle;
        tables = ap (λ ts. update_row id (parked at) (update_row id (bumped reason) ts)) h.tables;
        taken = h.taken;
      }

    HasReached-stable : (max : ℕ) → Stable f max (HasReached s₀)
    HasReached-stable max = record {
      sends = λ id event arn t sent found h. sends-HasReached t sent h id event arn found;
      marks = λ id event arn at t sent found h. marks-HasReached t sent h id event arn at found;
      bumps = λ id reason t sent short left h. bumps-HasReached t sent h id reason;
      gives_up = λ id reason at t sent short h. gives_up-HasReached t sent h id reason at;
    }

-- Every run of a relay process, whatever the database and SNS answer and wherever it dies, is a
-- sequence of steps of the cluster, if no other session is open at its start; none is open at its
-- end.
pub main-Steps :
    (f : Formats) (db : Database) (sns : Sns) (host : Host) (c : Config) (polls : ℕ)
    (w : World Tables Publisher) (s : Cluster)
    → s.sessions ≡ []
    → Mirrors s w
    → (t : Cluster) × Steps f s t × (t.sessions ≡ []) × Mirrors t (main f db sns host c polls w).1
main-Steps f db sns host c polls w s idle mirrors =
    let h =
      main-Holds f db sns host c (HasReached f s) (HasReached-stable f s c.outbox_max_attempts)
        polls w
        (record {
          here = s;
          steps = none_more s;
          idle = idle;
          tables = mirrors.tables;
          taken = mirrors.sent;
        }) in
    (h.here, h.steps, h.idle, record { tables = h.tables; sent = h.taken })
