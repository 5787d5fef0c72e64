-- ===== src/Bootstrap/Provisioned.antt =====
-- The first loop of bootstrap/main.py against a service that answers every call.
use outbox_fanout.Prelude.{
  ◌≤◌, length, arith, String, false, ◌≡◌, inl, inr, refl, sym, subst, Option, none, some, List, [],
  ◌∷◌, ◌++◌,
}
use outbox_fanout.Prelude.Predicates.{All, All-map, In, In-append_right}
use outbox_fanout.Formats.{Formats}
use outbox_fanout.Config.{Config}
use outbox_fanout.Cloud.{
  Request, create_topic, create_queue, set_queue_attributes, subscribe, set_subscription_attributes,
  done, call, Script, ◌>>=◌, ◌>>◌,
}
use outbox_fanout.Cloud.Rerun.{overwrites}
use outbox_fanout.Cloud.Ensured.{Ensured, bind-Ensured, subscriptions}
use outbox_fanout.Bootstrap.{
  dlq_for, attributes_for, provision, ensure_queue, ensure_subscription, filter_policy,
  queue_policy,
}
use outbox_fanout.Aws.{queue_arn}
use outbox_fanout.Bootstrap.Clashless.{Ours, Written, bare, redriven, permitted, Ours-overwrites}

module _ (f : Formats) (c : Config) (url arn : String → String) (topic : String) where
  -- Requests that have set the queue up.
  pub record IsUp (made : List (Request × String)) (name : String) : Type 0 where
    pub dlq : String
    pub own : dlq_for c name ≡ done dlq
    pub queue : In (create_queue name, url name) made
    pub dead : In (create_queue dlq, url dlq) made
    pub redrive :
        (x : String) × In
          (set_queue_attributes (url name) (attributes_for f c (some (arn dlq))), x)
          made
    pub listed : (x : String) × In (subscribe topic (arn name), x) made

  IsUp-append :
      (front made : List (Request × String)) (name : String)
      → IsUp made name
      → IsUp (front ++ made) name
  IsUp-append front made name h = record {
    dlq = h.dlq;
    own = h.own;
    queue = In-append_right _ front made h.queue;
    dead = In-append_right _ front made h.dead;
    redrive = (h.redrive.0, In-append_right _ front made h.redrive.1);
    listed = (h.listed.0, In-append_right _ front made h.listed.1);
  }

  -- Requests of the bootstrap only, which have set up the topic and these queues.
  pub record IsSetUp (names : List String) (made : List (Request × String)) : Type 0 where
    pub ours : All (λ p. Ours f c url arn topic p.0) made
    pub topic_made : In (create_topic c.sns_topic_name, topic) made
    pub up : All (IsUp made) names
    pub few : subscriptions made ≤ length names

  module _ (one_queue : (a b : String) → url a ≡ url b → a ≡ b) where
    IsOurs : List (Request × String) → Type 0
    IsOurs made = All (λ p. Ours f c url arn topic p.0) made

    clear :
        (r : Request) (made : List (Request × String))
        → Ours f c url arn topic r
        → IsOurs made
        → All (λ q. overwrites r q.0 ≡ false) made
    unfolding IsOurs
    clear r made h ours =
        All-map _ made (λ q k. Ours-overwrites f c url arn topic one_queue r q.0 h k) ours

    -- The requests of ensure_queue and of ensure_subscription, the newest first, with their replies.
    abbrev queue_made : String → Option String → String → List (Request × String)
    queue_made name dlq b =
        (set_queue_attributes (url name) (attributes_for f c dlq), b)
        ∷ (create_queue name, url name)
        ∷ []

    abbrev policy_set : String → Request
    policy_set name =
        set_queue_attributes (url name) (("Policy", f.dumps (queue_policy (arn name) topic)) ∷ [])

    abbrev filter_set : String → Request
    filter_set sub = set_subscription_attributes sub "FilterPolicy" (f.dumps filter_policy)

    abbrev subscription_made : String → String → String → String → List (Request × String)
    subscription_made name p sub x =
        (filter_set sub, x) ∷ (subscribe topic (arn name), sub) ∷ (policy_set name, p) ∷ []

    ensure_queue-Ensured :
        (name : String) (dlq : Option String) (made : List (Request × String))
        (Q : String × String → List (Request × String) → Type 0)
        → Written f c url arn topic (url name) (attributes_for f c dlq)
        → IsOurs made
        → ((b : String) → Q (url name, arn name) (queue_made name dlq b ++ made))
        → Ensured url arn (ensure_queue f c name dlq) made Q
    unfolding ensure_queue Ensured IsOurs
    ensure_queue-Ensured name dlq made Q written ours h = (
      clear (create_queue name) made tt ours,
      λ u at.
          subst
            (λ v.
              Ensured url arn
                (do
                  call (set_queue_attributes v (attributes_for f c dlq))
                  a ← queue_arn v
                  done (v, a))
                ((create_queue name, v) ∷ made) Q)
            (sym at)
            (
              clear (set_queue_attributes (url name) (attributes_for f c dlq))
                  ((create_queue name, url name) ∷ made) written (tt, ours),
              λ b _. (name, refl, inr (inl refl), h b),
            ),
    )

    ensure_subscription-Ensured :
        (name : String) (made : List (Request × String))
        (Q : String → List (Request × String) → Type 0)
        → IsOurs made
        → ((p sub x : String) → Q sub (subscription_made name p sub x ++ made))
        → Ensured url arn (ensure_subscription f c topic (url name) (arn name)) made Q
    unfolding ensure_subscription Ensured IsOurs
    ensure_subscription-Ensured name made Q ours h = (
      clear (policy_set name) made (permitted name refl refl) ours,
      λ p _. (
        clear (subscribe topic (arn name)) ((policy_set name, p) ∷ made) tt
            (permitted name refl refl, ours),
        λ sub _. (
          clear (filter_set sub) ((subscribe topic (arn name), sub) ∷ (policy_set name, p) ∷ made)
              refl (tt, (permitted name refl refl, ours)),
          λ x _. h p sub x,
        ),
      ),
    )

    set_up :
        (name dlq : String) (names : List String) (made : List (Request × String))
        → dlq_for c name ≡ done dlq
        → IsSetUp names made
        → (b r p sub x : String)
        → IsSetUp (name ∷ names) (
            subscription_made name p sub x
            ++ (queue_made name (some (arn dlq)) r ++ (queue_made dlq none b ++ made)))
    set_up name dlq names made own h b r p sub x =
        let front =
          subscription_made name p sub x
          ++ (queue_made name (some (arn dlq)) r ++ queue_made dlq none b) in
        record {
          ours = (
            refl,
            (
              tt,
              (
                permitted name refl refl,
                (redriven name dlq refl own refl, (tt, (bare refl, (tt, h.ours)))),
              ),
            ),
          );
          topic_made = In-append_right _ front made h.topic_made;
          up = (
            record {
              dlq = dlq;
              own = own;
              queue = inr (inr (inr (inr (inl refl))));
              dead = inr (inr (inr (inr (inr (inr (inl refl))))));
              redrive = (r, inr (inr (inr (inl refl))));
              listed = (sub, inr (inl refl));
            },
            All-map _ names (IsUp-append front made) h.up,
          );
          few = omega (arith, h.few);
        }

    -- The rest of a round, behind the dead letter queue, behind the queue, and its end.
    abbrev with_dlq : String → String × String → Script Unit
    with_dlq name dlq = do
      queue ← ensure_queue f c name (some dlq.1)
      ensure_subscription f c topic queue.0 queue.1
      done tt

    abbrev with_queue : String × String → Script Unit
    with_queue queue = do ensure_subscription f c topic queue.0 queue.1; done tt

    -- A round of the loop sets up its queue, and leaves the others set up.
    pub provision-Ensured :
        (name dlq : String) (names : List String) (made : List (Request × String))
        → dlq_for c name ≡ done dlq
        → IsSetUp names made
        → Ensured url arn (provision f c topic name) made (λ _ more. IsSetUp (name ∷ names) more)
    unfolding provision Ensured IsOurs
    provision-Ensured name dlq names made own h =
        let Q = λ (u : Unit {0}) (more : List (Request × String)). IsSetUp (name ∷ names) more in
        rw own (
          bind-Ensured url arn (ensure_queue f c dlq none) (with_dlq name) made Q (
            ensure_queue-Ensured dlq none made (λ a more. Ensured url arn (with_dlq name a) more Q)
              (bare refl) h.ours
              (λ b.
                bind-Ensured url arn (ensure_queue f c name (some (arn dlq))) with_queue
                  (queue_made dlq none b ++ made) Q
                  (ensure_queue-Ensured name (some (arn dlq)) (queue_made dlq none b ++ made)
                    (λ a more. Ensured url arn (with_queue a) more Q)
                    (redriven name dlq refl own refl) (bare refl, (tt, h.ours))
                    (λ r.
                      bind-Ensured url arn (ensure_subscription f c topic (url name) (arn name))
                        (λ _. done tt)
                        (queue_made name (some (arn dlq)) r ++ (queue_made dlq none b ++ made)) Q
                        (ensure_subscription-Ensured name
                          (queue_made name (some (arn dlq)) r ++ (queue_made dlq none b ++ made))
                          (λ _ more. Q tt more)
                          (redriven name dlq refl own refl, (tt, (bare refl, (tt, h.ours))))
                          (λ p sub x. set_up name dlq names made own h b r p sub x)))))))
