-- ===== src/Bootstrap/Shape.antt =====
-- Which parts of the bootstrap write, and what its requests depend on.
use outbox_fanout.Prelude.{String, Option, none, some, List, [], ◌∷◌, str_eq, inr, if_cases}
use outbox_fanout.Json.{Value, obj}
use outbox_fanout.Formats.{Formats}
use outbox_fanout.Config.{Config}
use outbox_fanout.Cloud.{done}
use outbox_fanout.Cloud.Runs.{IsReading, bind-IsReading}
use outbox_fanout.Cloud.Rerun.{IsSteady, IsOrderly, bind-IsSteady, bind-IsOrderly}
use outbox_fanout.Bootstrap.{
  queue_names, dlq_for, provision, provision_all, expected_arns, all_subscribed, targets, parsed,
  redrives, verify, verify_all, check, main,
}

module _ (f : Formats) (c : Config) where
  dlq_for-IsSteady : (name : String) → IsSteady (dlq_for c name)
  unfolding dlq_for IsSteady
  dlq_for-IsSteady name = if_cases IsSteady (str_eq c.notify_queue_name name) _ _ tt (
      if_cases IsSteady (str_eq c.shipping_queue_name name) _ _ tt
        (if_cases IsSteady (str_eq c.billing_queue_name name) _ _ tt tt))

  dlq_for-IsReading : (name : String) → IsReading (dlq_for c name)
  unfolding dlq_for IsReading
  dlq_for-IsReading name = if_cases IsReading (str_eq c.notify_queue_name name) _ _ tt (
      if_cases IsReading (str_eq c.shipping_queue_name name) _ _ tt
        (if_cases IsReading (str_eq c.billing_queue_name name) _ _ tt tt))

  provision-IsSteady : (topic name : String) → IsSteady (provision f c topic name)
  unfolding provision IsSteady
  provision-IsSteady topic name =
      bind-IsSteady _ (dlq_for c name) (dlq_for-IsSteady name)
        (λ dlq_name x y. (tt, λ arn z u. (tt, λ arn' p q r. tt)))

  provision_all-IsSteady :
      (topic : String) (names : List String) → IsSteady (provision_all f c topic names)
  unfolding provision_all IsSteady
  provision_all-IsSteady topic [] = tt
  provision_all-IsSteady topic (name ∷ names) =
      bind-IsSteady _ (provision f c topic name) (provision-IsSteady topic name)
        (λ _. provision_all-IsSteady topic names)

  pub expected_arns-IsReading : (names : List String) → IsReading (expected_arns f c names)
  unfolding expected_arns IsReading
  expected_arns-IsReading [] = tt
  expected_arns-IsReading (name ∷ names) = λ url arn.
      bind-IsReading (expected_arns f c names) _ (expected_arns-IsReading names) (λ arns. tt)

  targets-IsReading : (dlq_arn : String) (policy : Value) → IsReading (targets f c dlq_arn policy)
  unfolding IsReading
  targets-IsReading dlq_arn (obj fs) = tt
  targets-IsReading dlq_arn _ = tt

  parsed-IsReading : (v : Option Value) → IsReading (parsed f c v)
  unfolding IsReading
  parsed-IsReading none = tt
  parsed-IsReading (some v) = tt

  pub redrives-IsReading :
      (name : String) (policy : Option String) → IsReading (redrives f c name policy)
  unfolding IsReading verify
  redrives-IsReading name none = tt
  redrives-IsReading name (some text) =
      bind-IsReading (parsed f c (f.loads text)) _ (parsed-IsReading (f.loads text)) (λ policy.
        bind-IsReading (dlq_for c name) _ (dlq_for-IsReading name)
          (λ dlq_name url dlq_arn. targets-IsReading dlq_arn policy))

  pub verify-IsReading : (name : String) → IsReading (verify f c name)
  unfolding verify IsReading
  verify-IsReading name = λ url policy. redrives-IsReading name policy

  pub verify_all-IsReading : (names : List String) → IsReading (verify_all f c names)
  unfolding verify_all IsReading
  verify_all-IsReading [] = tt
  verify_all-IsReading (name ∷ names) =
      bind-IsReading (verify f c name) _ (verify-IsReading name) (λ passes.
        if_cases IsReading passes (verify_all f c names) (done 1) (verify_all-IsReading names) tt)

  pub check-IsReading : (topic : String) → IsReading (check f c topic)
  unfolding check IsReading
  check-IsReading topic = λ endpoints.
      bind-IsReading (expected_arns f c (queue_names c)) _ (expected_arns-IsReading (queue_names c))
        (λ arns.
          if_cases IsReading (all_subscribed f c endpoints arns) (verify_all f c (queue_names c))
            (done 1) (verify_all-IsReading (queue_names c)) tt)

  pub main-IsOrderly : IsOrderly (main f c)
  unfolding main IsOrderly check
  main-IsOrderly = λ topic.
      bind-IsOrderly _ (provision_all f c topic (queue_names c))
        (provision_all-IsSteady topic (queue_names c)) (λ _. inr (check-IsReading topic))
