-- ===== src/Messages/Laws.antt =====
-- What a consumer reads of a message that the relay published.
use outbox_fanout.Prelude.{String, ◌≡◌, refl, some, arith, none, if◌then◌else◌, str_eq, eq_iff}
use outbox_fanout.Outcome.{ok}
use outbox_fanout.Json.{str, obj, Fields, entry, empty_object, get, without}
use outbox_fanout.Formats.{Formats}
use outbox_fanout.Tables.{OutboxEvent}
use outbox_fanout.Relay.Publisher.{build_message, body_of}
use outbox_fanout.Messages.{unwrap, sns_metadata}

-- A body that SNS delivers without raw delivery: a JSON object with the published text in "Message".
pub record IsEnvelope (f : Formats) (published : String) (envelope : Fields) : Type 0 where
  pub kind : get "Type" envelope ≡ some (str "Notification")
  pub message : get "Message" envelope ≡ some (str published)

-- A consumer reads the relay's event of a row from its body, whether SNS put the body into an
-- envelope or delivered it raw.
pub unwrap-body_of :
    (f : Formats) (event : OutboxEvent) (envelope : Fields)
    → IsEnvelope f (body_of f event) envelope
    → (unwrap f (f.dumps (obj envelope)) ≡ ok (obj (build_message f event)))
      × (unwrap f (body_of f event) ≡ ok (obj (build_message f event)))
unfolding unwrap build_message
unwrap-body_of f event envelope e = (
  ground (
    arith,
    f.loads-dumps (obj envelope),
    f.loads-dumps (obj (build_message f event)),
    e.kind,
    e.message,
  ),
  rw (f.loads-dumps (obj (build_message f event))) refl,
)

get-without :
    (fs : Fields) (k j : String) → get j (without k fs) ≡ (if str_eq k j then none else get j fs)
unfolding get without
get-without empty_object k j = ground arith
get-without (entry i v fs) k j =
    ground (arith, get-without fs k j, eq_iff i k, eq_iff i j, eq_iff k j)

-- The metadata of a body that SNS put into an envelope is that envelope without the message.
pub sns_metadata-get :
    (f : Formats) (published : String) (envelope : Fields) (j : String)
    → IsEnvelope f published envelope
    → (fs : Fields) × (sns_metadata f (f.dumps (obj envelope)) ≡ ok fs)
      × (get j fs ≡ (if str_eq "Message" j then none else get j envelope))
unfolding sns_metadata
sns_metadata-get f published envelope j e = (
  without "Message" envelope,
  ground (arith, f.loads-dumps (obj envelope), e.kind),
  get-without envelope "Message" j,
)
