-- ===== src/Bootstrap/Checked.antt =====
-- What an exit code of 0 tells.
use outbox_fanout.Prelude.{
  ℕ, String, Bool, true, false, ◌≡◌, refl, sym, ap, ◌∙◌, subst, List, arith, if◌then◌else◌,
}
use outbox_fanout.Prelude.Predicates.{All, All-map}
use outbox_fanout.Outcome.{Outcome, ok}
use outbox_fanout.Relay.Publisher.{accepted}
use outbox_fanout.Formats.{Formats}
use outbox_fanout.Config.{Config}
use outbox_fanout.Cloud.{done, create_topic, Service, Progress, run}
use outbox_fanout.Cloud.Runs.{
  Tells, bind-Tells, run-Tells, request-returned, bind-returned, run-IsReading,
}
use outbox_fanout.Bootstrap.{
  queue_names, provision_all, expected_arns, all_subscribed, verify_all, check, main,
}
use outbox_fanout.Bootstrap.Shape.{check-IsReading}
use outbox_fanout.Bootstrap.Subscribed.{
  IsListed, IsSubscribed, all_subscribed-In, expected_arns-IsListed,
}
use outbox_fanout.Bootstrap.Redriven.{IsRedriven, verify_all-IsRedriven}

module _ {S : Type 0} (f : Formats) (c : Config) (service : Service S) where
  module _ (s : S) where
    check-passed :
        (topic : String)
        → Tells service s (check f c topic) 0
        → All (IsSubscribed f c service topic s) (queue_names c)
          × All (IsRedriven f c service s) (queue_names c)
    unfolding Tells check
    check-passed topic (endpoints, has_endpoints, h) =
        let (arns, p, q) =
          bind-Tells service s (expected_arns f c (queue_names c))
            (λ arns.
              if all_subscribed f c endpoints arns then verify_all f c (queue_names c) else done 1)
            0 h in
        split arns p (all_subscribed f c endpoints arns) refl q
      where
        split :
            (arns : List String)
            → Tells service s (expected_arns f c (queue_names c)) arns
            → (b : Bool) → all_subscribed f c endpoints arns ≡ b
            → Tells service s (if b then verify_all f c (queue_names c) else done 1) 0
            → All (IsSubscribed f c service topic s) (queue_names c)
              × All (IsRedriven f c service s) (queue_names c)
        split arns p false e q = absurd (omega (arith, q))
        split arns p true e q = (
          All-map {Q = IsSubscribed f c service topic s} (IsListed f c service arns s)
              (queue_names c)
              (λ name l. record {
                url = l.url;
                arn = l.arn;
                endpoints = endpoints;
                has_url = l.has_url;
                has_arn = l.has_arn;
                has_endpoints = has_endpoints;
                subscribed = all_subscribed-In f c service endpoints arns l.arn e l.listed;
              })
              (expected_arns-IsListed f c service s (queue_names c) arns p),
          verify_all-IsRedriven f c service s (queue_names c) q,
        )

  check-run :
      (topic : String) (w : Progress S) (out : Outcome ℕ × Progress S)
      → out ≡ run service (check f c topic) w
      → out.0 ≡ ok 0
      → All (IsSubscribed f c service topic out.1.state) (queue_names c)
        × All (IsRedriven f c service out.1.state) (queue_names c)
  check-run topic w out p h =
      subst
        (λ s.
          All (IsSubscribed f c service topic s) (queue_names c)
          × All (IsRedriven f c service s) (queue_names c))
        (sym (
          ap (λ o. o.1.state) p
          ∙ (run-IsReading service (check f c topic) w (check-IsReading f c topic)).0))
        (check-passed w.state topic (
          run-Tells service (check f c topic) w 0 (check-IsReading f c topic)
            (sym (ap (λ o. o.0) p) ∙ h)))

  -- The bootstrap exits with 0 only if, in the state that it leaves, every queue is subscribed to the
  -- topic that create_topic answered with, and every queue redrives to its own dead letter queue,
  -- whatever the service answers.
  pub main-passed :
      (w : Progress S)
      → (run service (main f c) w).0 ≡ ok 0
      → (topic : String) × ((service.apply w.tick (create_topic c.sns_topic_name) w.state).0
          ≡ accepted topic)
        × All (IsSubscribed f c service topic (run service (main f c) w).1.state) (queue_names c)
        × All (IsRedriven f c service (run service (main f c) w).1.state) (queue_names c)
  unfolding main
  main-passed w h =
      let (topic, p, q) = request-returned service (create_topic c.sns_topic_name) _ w 0 h in
      let (_, r, t) =
        bind-returned service (λ _. check f c topic) (provision_all f c topic (queue_names c)) _ 0
          (rw q at h) in
      let passed = check-run topic _ (run service (main f c) w) (q ∙ t) h in
      (topic, p, passed.0, passed.1)
