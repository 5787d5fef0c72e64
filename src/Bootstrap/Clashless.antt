-- ===== src/Bootstrap/Clashless.antt =====
-- The requests of bootstrap/main.py: none sets an attribute that another one sets to another value.
use outbox_fanout.Prelude.{
  String, Bool-cases, true, false, ◌≡◌, refl, sym, ap, subst, ◌∙◌, inl, inr, Option, none, some, [],
  ◌∷◌, str_eq, eq_iff, str_eq_refl, arith,
}
use outbox_fanout.Json.{num}
use outbox_fanout.Formats.{Formats}
use outbox_fanout.Config.{Config}
use outbox_fanout.Cloud.{
  Attributes, Request, set_queue_attributes, set_subscription_attributes, done,
}
use outbox_fanout.Cloud.Rerun.{overwrites, differs}
use outbox_fanout.Bootstrap.{
  dlq_for, attributes_for, queue_attributes, redrive_policy, queue_policy, filter_policy,
}

-- The attributes of two queues differ only where they redrive to different dead letter queues.
module _ (f : Formats) (c : Config) where
  settings_same :
      (str_eq
          (f.str_of (num c.sqs_visibility_timeout_seconds))
          (f.str_of (num c.sqs_visibility_timeout_seconds))
        ≡ true)
      × (str_eq (f.str_of (num c.sqs_wait_time_seconds)) (f.str_of (num c.sqs_wait_time_seconds))
          ≡ true)
      × (str_eq
            (f.str_of (num c.sqs_message_retention_seconds))
            (f.str_of (num c.sqs_message_retention_seconds))
          ≡ true)
  settings_same = (str_eq_refl _, str_eq_refl _, str_eq_refl _)

  attributes_for-differs :
      (o o' : Option String)
      → ((a a' : String) → o ≡ some a → o' ≡ some a' → a ≡ a')
      → differs (attributes_for f c o) (attributes_for f c o') ≡ false
  unfolding attributes_for queue_attributes
  attributes_for-differs none none same = ground (arith, settings_same)
  attributes_for-differs none (some a') same = ground (arith, settings_same)
  attributes_for-differs (some a) none same = ground (arith, settings_same)
  attributes_for-differs (some a) (some a') same =
      rw (same a a' refl refl)
        (ground (arith, settings_same, str_eq_refl (f.dumps (redrive_policy f c a'))))

module _ (f : Formats) (c : Config) (url arn : String → String) (topic : String) where
  -- The attributes that the bootstrap sets at a URL: the ones of any queue; those of a queue with its
  -- dead letter queue; or the permission.
  pub data Written (u : String) (kvs : Attributes) : Type 0 where
    bare : kvs ≡ attributes_for f c none → Written u kvs
    redriven :
        (name dlq : String)
        → u ≡ url name
        → dlq_for c name ≡ done dlq
        → kvs ≡ attributes_for f c (some (arn dlq))
        → Written u kvs
    permitted :
        (name : String)
        → u ≡ url name
        → kvs ≡ ("Policy", f.dumps (queue_policy (arn name) topic)) ∷ []
        → Written u kvs

  abbrev pub Ours : Request → Type 0
  Ours (set_queue_attributes u kvs) = Written u kvs
  Ours (set_subscription_attributes s k v) = v ≡ f.dumps filter_policy
  Ours _ = Unit

  module _ (one_queue : (a b : String) → url a ≡ url b → a ≡ b) where
    same_dlq :
        (u name name' dlq dlq' : String)
        → u ≡ url name
        → u ≡ url name'
        → dlq_for c name ≡ done dlq
        → dlq_for c name' ≡ done dlq'
        → dlq ≡ dlq'
    same_dlq u name name' dlq dlq' at at' own own' =
        ground (arith, sym own ∙ (ap (dlq_for c) (one_queue name name' (sym at ∙ at')) ∙ own'))

    Written-differs :
        (u : String) (new old : Attributes)
        → Written u new
        → Written u old
        → differs new old ≡ false
    unfolding attributes_for queue_attributes
    Written-differs u new old (bare p) (bare q) =
        rw (p, q) (attributes_for-differs f c none none (λ a a' h k. absurd (ground arith)))
    Written-differs u new old (bare p) (redriven name dlq _ _ q) =
        rw (p, q)
          (attributes_for-differs f c none (some (arn dlq)) (λ a a' h k. absurd (ground arith)))
    Written-differs u new old (bare p) (permitted name _ q) = rw (p, q) refl
    Written-differs u new old (redriven name dlq _ _ p) (bare q) =
        rw (p, q)
          (attributes_for-differs f c (some (arn dlq)) none (λ a a' h k. absurd (ground arith)))
    Written-differs u new old (redriven name dlq at own p) (redriven name' dlq' at' own' q) =
        rw (p, q, same_dlq u name name' dlq dlq' at at' own own')
          (attributes_for-differs f c (some (arn dlq')) (some (arn dlq'))
            (λ a a' h k. ground (arith, h, k)))
    Written-differs u new old (redriven name dlq _ _ p) (permitted name' _ q) = rw (p, q) refl
    Written-differs u new old (permitted name _ p) (bare q) = rw (p, q) refl
    Written-differs u new old (permitted name _ p) (redriven name' dlq _ _ q) = rw (p, q) refl
    Written-differs u new old (permitted name at p) (permitted name' at' q) =
        rw
          (
            p,
            q,
            one_queue name name' (sym at ∙ at'),
            str_eq_refl (f.dumps (queue_policy (arn name') topic)),
          )
          refl

    -- No two requests of the bootstrap clash.
    pub Ours-overwrites : (r r' : Request) → Ours r → Ours r' → overwrites r r' ≡ false
    Ours-overwrites (set_queue_attributes u new) (set_queue_attributes u' old) h h' =
        elim (Bool-cases (str_eq u u')) [
          | inl here ↦ rw here (
              Written-differs u new old h
                (subst (λ v. Written v old) (sym ((eq_iff u u').0 here)) h'))
          | inr other ↦ rw other refl
        ]
    Ours-overwrites (set_subscription_attributes s k v) (set_subscription_attributes s' k' v') h
          h' =
        ground (arith, h, h', str_eq_refl (f.dumps filter_policy))
    Ours-overwrites (set_queue_attributes u new) _ h h' = refl
    Ours-overwrites (set_subscription_attributes s k v) _ h h' = refl
    Ours-overwrites _ _ h h' = refl
