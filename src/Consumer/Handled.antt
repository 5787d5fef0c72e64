-- ===== src/Consumer/Handled.antt =====
-- What `_handle_one` does with one message.
use outbox_fanout.Prelude.{
  ℕ, String, true, ◌≡◌, ◌≢◌, refl, inl, inr, Option, none, some, ◌∷◌, arith, Bool-cases,
  Option-cases,
}
use outbox_fanout.Outcome.{Exc, Outcome, ok, raise, exit}
use outbox_fanout.Json.{Value, obj, subscript}
use outbox_fanout.Messages.{unwrap}
use outbox_fanout.Formats.{Formats}
use outbox_fanout.Consumer.{
  SqsMessage, Sqs, Loop, Handler, parse_event, body_event, with_event_id, is_poison, handle_one,
}

-- `poisoned`: the body does not parse, and the message is left where it is. `broken`: another
-- exception before the handler. `failed` and `died`: the handler did not return, and the message is
-- not deleted. `undeleted`: handled, and SQS refused to delete. `deleted`: handled, then deleted.
pub data Handled {W : Type 0} (f : Formats) (handler : Handler W) (m : SqsMessage) (l : Loop W)
    (o : Outcome (Unit {0})) (l' : Loop W) : Type 0 where
  poisoned :
      (e : Exc)
      → parse_event f m ≡ raise e
      → is_poison e ≡ true
      → o ≡ ok tt
      → l' ≡ l
      → Handled f handler m l o l'
  broken : (e : Exc) → parse_event f m ≡ raise e → o ≡ raise e → l' ≡ l → Handled f handler m l o l'
  failed :
      (event : Value) (e : Exc)
      → parse_event f m ≡ ok event
      → (handler event l.world).0 ≡ raise e
      → o ≡ raise e
      → l' ≡ record l { world = (handler event l.world).1 }
      → Handled f handler m l o l'
  died :
      (event : Value) (code : ℕ)
      → parse_event f m ≡ ok event
      → (handler event l.world).0 ≡ exit code
      → o ≡ exit code
      → l' ≡ record l { world = (handler event l.world).1 }
      → Handled f handler m l o l'
  undeleted :
      (event : Value) (e : Exc)
      → parse_event f m ≡ ok event
      → (handler event l.world).0 ≡ ok tt
      → o ≡ raise e
      → l'.world ≡ (handler event l.world).1
      → l'.finished ≡ m.receipt_handle ∷ l.finished
      → l'.deleted ≡ l.deleted
      → Handled f handler m l o l'
  deleted :
      (event : Value)
      → parse_event f m ≡ ok event
      → (handler event l.world).0 ≡ ok tt
      → o ≡ ok tt
      → l'.world ≡ (handler event l.world).1
      → l'.finished ≡ m.receipt_handle ∷ l.finished
      → l'.deleted ≡ m.receipt_handle ∷ l.deleted
      → Handled f handler m l o l'

subscript-ne-exit : (v : Value) (k : String) (code : ℕ) → subscript v k ≢ exit code
unfolding subscript
subscript-ne-exit (obj fs) k code h = ground arith
subscript-ne-exit _ k code h = ground arith

unwrap-ne-exit : (f : Formats) (body : String) (code : ℕ) → unwrap f body ≢ exit code
unfolding unwrap
unwrap-ne-exit f body code h = ground arith

module _ (f : Formats) (m : SqsMessage) (code : ℕ) where
  with_event_id-ne-exit : (o : Outcome Value) → o ≢ exit code → with_event_id f o ≢ exit code
  with_event_id-ne-exit (ok event) h q = ground (arith, subscript-ne-exit event "event_id" code)
  with_event_id-ne-exit (raise e) h q = ground arith
  with_event_id-ne-exit (exit k) h q = h q

  body_event-ne-exit : (body : Option String) → body_event f body ≢ exit code
  body_event-ne-exit none q = ground arith
  body_event-ne-exit (some body) q = unwrap-ne-exit f body code q

  parse_event-ne-exit : parse_event f m ≢ exit code
  unfolding parse_event
  parse_event-ne-exit = with_event_id-ne-exit (body_event f m.body) (body_event-ne-exit m.body)

module _ {W : Type 0} (f : Formats) (sqs : Sqs) (handler : Handler W) (m : SqsMessage)
    (l : Loop W) where
  abbrev one : Outcome (Unit {0}) × Loop W
  one = handle_one f sqs handler m l

  module _ (event : Value) (p : parse_event f m ≡ ok event) where
    finishes :
        (o : Outcome (Unit {0})) → (handler event l.world).0 ≡ o → Handled f handler m l one.0 one.1
    unfolding handle_one
    finishes (raise e) q = failed event e p q (rw (p, q) refl) (rw (p, q) refl)
    finishes (exit code) q = died event code p q (rw (p, q) refl) (rw (p, q) refl)
    finishes (ok _) q = elim (Option-cases (sqs.delete_fault l.tick)) [
      | inl calm ↦ deleted event p q (ground arith) (ground arith) (ground arith) (ground arith)
      | inr (e, fault) ↦
          undeleted event e p q (ground arith) (ground arith) (ground arith) (ground arith)
    ]

  parsed : (o : Outcome Value) → parse_event f m ≡ o → Handled f handler m l one.0 one.1
  unfolding handle_one
  parsed (ok event) p = finishes event p (handler event l.world).0 refl
  parsed (raise e) p = elim (Bool-cases (is_poison e)) [
    | inl poison ↦ poisoned e p poison (rw (p, poison) refl) (rw (p, poison) refl)
    | inr other ↦ broken e p (rw (p, other) refl) (rw (p, other) refl)
  ]
  parsed (exit code) p = absurd (parse_event-ne-exit f m code p)

  pub handle_one-Handled : Handled f handler m l one.0 one.1
  handle_one-Handled = parsed (parse_event f m) refl
