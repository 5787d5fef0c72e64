-- ===== src/Messages.antt =====
-- shared/messages.py: our event out of the body of an SQS message.
pub mod Laws
use outbox_fanout.Prelude.{String, Bool, ◌&&◌, Option, none, some, if◌then◌else◌}
use outbox_fanout.Outcome.{Outcome, ok, raise, json_decode_error, type_error}
use outbox_fanout.Json.{Value, str, obj, Fields, empty_object, get, has_key, is_text, without}
use outbox_fanout.Formats.{Formats}

abbrev or_decode_error : Option Value → Outcome Value
or_decode_error none = raise json_decode_error
or_decode_error (some v) = ok v

-- the envelope that SNS puts around a message
abbrev is_notification : Fields → Bool
is_notification fs = is_text "Notification" (get "Type" fs) && has_key "Message" fs

module _ (f : Formats) where
  -- `json.loads(v)` of a value that was read
  unfoldable pub loads_value : Option Value → Outcome Value
  loads_value (some (str s)) = or_decode_error (f.loads s)
  loads_value _ = raise type_error

  unfoldable pub unwrap_outer : Value → Outcome Value
  unfolding loads_value get
  unwrap_outer (obj fs) = if is_notification fs then loads_value (get "Message" fs) else ok (obj fs)
  unwrap_outer v = ok v

  abbrev unwrap_read : Option Value → Outcome Value
  unwrap_read none = raise json_decode_error
  unwrap_read (some outer) = unwrap_outer outer

  -- unwrap
  unfoldable pub unwrap : String → Outcome Value
  unfolding unwrap_outer
  unwrap body = unwrap_read (f.loads body)

  unfoldable pub metadata_of : Value → Fields
  unfolding get without
  metadata_of (obj fs) =
      if is_text "Notification" (get "Type" fs) then without "Message" fs else empty_object
  metadata_of v = empty_object

  abbrev metadata_read : Option Value → Outcome Fields
  metadata_read none = raise json_decode_error
  metadata_read (some outer) = ok (metadata_of outer)

  -- sns_metadata
  unfoldable pub sns_metadata : String → Outcome Fields
  unfolding metadata_of
  sns_metadata body = metadata_read (f.loads body)
