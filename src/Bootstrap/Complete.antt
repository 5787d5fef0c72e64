-- ===== src/Bootstrap/Complete.antt =====
-- bootstrap/main.py against a service that answers every call: its checks, and the whole program.
use outbox_fanout.Prelude.{
  ◌≤◌, length, ℕ, String, Bool, true, ◌≡◌, inl, refl, subst, some, List, [], ◌∷◌, map, str_eq,
  str_eq_refl, if◌then◌else◌, if_cases, arith,
}
use outbox_fanout.Prelude.Predicates.{All, All-map, In}
use outbox_fanout.Outcome.{ok}
use outbox_fanout.Json.{get}
use outbox_fanout.Formats.{Formats}
use outbox_fanout.Config.{Config}
use outbox_fanout.Cloud.{Request, create_topic, Script, done, Service, Progress, run}
use outbox_fanout.Cloud.Rerun.{IsIdempotent, IsClashless}
use outbox_fanout.Cloud.Ensured.{
  IsAnswering, Ensured, bind-Ensured, Ensured-map, run-Ensured, subscriptions,
}
use outbox_fanout.Bootstrap.{
  queue_names, dlq_for, attributes_for, provision, provision_all, expected_arns, all_subscribed,
  is_subscribed, redrive_policy, verify, verify_all, check, main,
}
use outbox_fanout.Bootstrap.Repeated.{main-main}
use outbox_fanout.Bootstrap.Provisioned.{IsUp, IsSetUp, provision-Ensured}

module _ (f : Formats) (c : Config) (url arn : String → String) (topic : String) where
  expected_arns-Ensured :
      (names : List String) (made : List (Request × String))
      (Q : List String → List (Request × String) → Type 0)
      → All (IsUp f c url arn topic made) names
      → Q (map arn names) made
      → Ensured url arn (expected_arns f c names) made Q
  unfolding expected_arns Ensured
  expected_arns-Ensured [] made Q up h = h
  expected_arns-Ensured (name ∷ names) made Q (here, up) h = (
    here.queue,
    (
      name,
      refl,
      here.queue,
      bind-Ensured url arn (expected_arns f c names) (λ arns. done (arn name ∷ arns)) made Q
          (expected_arns-Ensured names made (λ arns more. Q (arn name ∷ arns) more) up h),
    ),
  )

  all_subscribed-arns :
      (endpoints names : List String)
      → All (λ name. is_subscribed f c endpoints (arn name) ≡ true) names
      → all_subscribed f c endpoints (map arn names) ≡ true
  all_subscribed-arns endpoints [] h = refl
  all_subscribed-arns endpoints (name ∷ names) h =
      ground (arith, h.0, all_subscribed-arns endpoints names h.1)

  verify-Ensured :
      (name : String) (made : List (Request × String)) (Q : Bool → List (Request × String) → Type 0)
      → IsUp f c url arn topic made name
      → Q true made
      → Ensured url arn (verify f c name) made Q
  unfolding verify Ensured attributes_for redrive_policy get
  verify-Ensured name made Q up h = (
    up.queue,
    (
      attributes_for f c (some (arn up.dlq)),
      up.redrive.0,
      f.dumps (redrive_policy f c (arn up.dlq)),
      up.redrive.1,
      refl,
      rw (f.loads-dumps (redrive_policy f c (arn up.dlq)), up.own)
          (up.dead, (up.dlq, refl, up.dead, rw (str_eq_refl (arn up.dlq)) h)),
    ),
  )

  verify_all-Ensured :
      (names : List String) (made : List (Request × String))
      (Q : ℕ → List (Request × String) → Type 0)
      → All (IsUp f c url arn topic made) names
      → Q 0 made
      → Ensured url arn (verify_all f c names) made Q
  unfolding verify_all Ensured
  verify_all-Ensured [] made Q up h = h
  verify_all-Ensured (name ∷ names) made Q (here, up) h =
      let rest : Bool → Script ℕ =
        λ passes. let r = verify_all f c names in if passes then r else done 1 in
      bind-Ensured url arn (verify f c name) rest made Q (
        verify-Ensured name made (λ passes more. Ensured url arn (rest passes) more Q) here
          (verify_all-Ensured names made Q up h))

  check-Ensured :
      (made : List (Request × String))
      → In (create_topic c.sns_topic_name, topic) made
      → subscriptions made ≤ 3
      → All (IsUp f c url arn topic made) (queue_names c)
      → Ensured url arn (check f c topic) made (λ code _. code ≡ 0)
  unfolding check Ensured
  check-Ensured made topic_made few up = (
    c.sns_topic_name,
    topic_made,
    few,
    λ endpoints all.
        let rest : List String → Script ℕ = λ arns.
          if all_subscribed f c endpoints arns then verify_all f c (queue_names c) else done 1 in
        bind-Ensured url arn (expected_arns f c (queue_names c)) rest made (λ code _. code ≡ 0)
          (expected_arns-Ensured (queue_names c) made
            (λ arns more. Ensured url arn (rest arns) more (λ code _. code ≡ 0)) up
            (rw
              (all_subscribed-arns endpoints (queue_names c) (
                All-map (IsUp f c url arn topic made) (queue_names c)
                  (λ name u. all (arn name) u.listed.0 u.listed.1) up))
              (verify_all-Ensured (queue_names c) made (λ code _. code ≡ 0) up refl))),
  )

abbrev HasDlq : Script String → Type 0
HasDlq m = (dlq : String) × (m ≡ done dlq)

-- Every queue of the bootstrap has a dead letter queue.
dlq_for-own : (c : Config) → All (λ name. HasDlq (dlq_for c name)) (queue_names c)
unfolding dlq_for
dlq_for-own c = (
  if_cases HasDlq (str_eq c.notify_queue_name c.billing_queue_name) _ _ (c.notify_dlq_name, refl)
      (if_cases HasDlq (str_eq c.shipping_queue_name c.billing_queue_name) _ _
        (c.shipping_dlq_name, refl)
        (rw (str_eq_refl c.billing_queue_name) (c.billing_dlq_name, refl))),
  (
    if_cases HasDlq (str_eq c.notify_queue_name c.shipping_queue_name) _ _ (c.notify_dlq_name, refl)
        (rw (str_eq_refl c.shipping_queue_name) (c.shipping_dlq_name, refl)),
    (rw (str_eq_refl c.notify_queue_name) (c.notify_dlq_name, refl), tt),
  ),
)

-- A run that starts in this state of the service.
abbrev pub started : {S : Type 0} → S → ℕ → Progress S
started s tick = record { state = s; made = []; tick = tick }

-- The names in front of others, the last one first.
abbrev behind : List String → List String → List String
behind [] others = others
behind (name ∷ names) others = behind names (name ∷ others)

module _ (f : Formats) (c : Config) (url arn : String → String)
    (one_queue : (a b : String) → url a ≡ url b → a ≡ b) where
  provision_all-Ensured :
      (topic : String) (names others : List String) (made : List (Request × String))
      → All (λ name. HasDlq (dlq_for c name)) names
      → IsSetUp f c url arn topic others made
      → Ensured url arn
          (provision_all f c topic names)
          made
          (λ _ more. IsSetUp f c url arn topic (behind names others) more)
  unfolding provision_all Ensured
  provision_all-Ensured topic [] others made own h = h
  provision_all-Ensured topic (name ∷ names) others made ((dlq, mine), own) h =
      bind-Ensured url arn (provision f c topic name) (λ _. provision_all f c topic names) made
        (λ _ more. IsSetUp f c url arn topic (behind names (name ∷ others)) more)
        (Ensured-map url arn (provision f c topic name) made
          (λ _ more. IsSetUp f c url arn topic (name ∷ others) more)
          (λ _ more.
            Ensured url arn (provision_all f c topic names) more
              (λ _ more. IsSetUp f c url arn topic (behind names (name ∷ others)) more))
          (λ _ more up. provision_all-Ensured topic names (name ∷ others) more own up)
          (provision-Ensured f c url arn topic one_queue name dlq others made mine h))

  main-Ensured : Ensured url arn (main f c) [] (λ code _. code ≡ 0)
  unfolding main Ensured
  main-Ensured = (
    tt,
    λ topic _.
        bind-Ensured url arn (provision_all f c topic (queue_names c)) (λ _. check f c topic)
          ((create_topic c.sns_topic_name, topic) ∷ []) (λ code _. code ≡ 0)
          (Ensured-map url arn (provision_all f c topic (queue_names c))
            ((create_topic c.sns_topic_name, topic) ∷ [])
            (λ _ more. IsSetUp f c url arn topic (behind (queue_names c) []) more)
            (λ _ more. Ensured url arn (check f c topic) more (λ code _. code ≡ 0))
            (λ _ more h.
              check-Ensured f c url arn topic more h.topic_made h.few
                (h.up.1.1.0, (h.up.1.0, (h.up.0, tt))))
            (provision_all-Ensured topic (queue_names c) [] _ (dlq_for-own c)
              (record { ours = (tt, tt); topic_made = inl refl; up = tt; few = omega arith }))),
  )

  -- Against a service that answers every call, keeps what SNS and SQS document of these calls, and shows
  -- at once what a request has set, and where no topic has more than 97 subscriptions, so that the first
  -- page of a hundred lists them all with the new ones: the bootstrap exits with 0, whatever topics,
  -- queues and subscriptions were there before otherwise, and whatever names the configuration gives;
  -- and a second run leaves the state that the first one left.
  pub main_completes :
      {S : Type 0} (service : Service S) (in_effect : Request → String → S → Type 0)
      (law : IsIdempotent service in_effect) (answering : IsAnswering service in_effect url arn)
      (s : S) (tick later : ℕ)
      → ((topic : String) → length (answering.subscribed topic s) ≤ 97)
      → ((run service (main f c) (started s tick)).0 ≡ ok 0)
        × ((run service
              (main f c)
              (started (run service (main f c) (started s tick)).1.state later)).1.state
            ≡ (run service (main f c) (started s tick)).1.state)
  unfolding IsClashless
  main_completes service in_effect law answering s tick later room =
      let (code, returned, zero, clashless) =
        run-Ensured url arn service in_effect law answering (main f c) (started s tick)
          (λ code _. code ≡ 0) tt tt (λ topic. omega (arith, room topic)) main-Ensured in
      (
        subst (λ n. (run service (main f c) (started s tick)).0 ≡ ok n) zero returned,
        main-main f c service in_effect law (started s tick)
            (started (run service (main f c) (started s tick)).1.state later) code refl returned
            clashless refl,
      )
