-- ===== src/Bootstrap/Redriven.antt =====
-- What the check of the redrive policies tells.
use outbox_fanout.Prelude.{
  String, Bool, true, false, ◌≡◌, refl, ap, ◌∙◌, Option, none, some, List, [], ◌∷◌, arith,
  if◌then◌else◌,
}
use outbox_fanout.Prelude.Predicates.{All}
use outbox_fanout.Json.{Value, obj, Fields, get, is_text}
use outbox_fanout.Formats.{Formats}
use outbox_fanout.Config.{Config}
use outbox_fanout.Cloud.{done, get_queue_url, get_queue_arn, get_redrive_policy, Service}
use outbox_fanout.Aws.{queue_url, queue_arn}
use outbox_fanout.Cloud.Runs.{Shows, Tells, bind-Tells}
use outbox_fanout.Bootstrap.{dlq_for, targets, parsed, redrives, verify, verify_all}

module _ {S : Type 0} (f : Formats) (c : Config) (service : Service S) where
  -- The queue has a redrive policy, and it names the ARN of the queue's own dead letter queue.
  pub record IsRedriven (s : S) (name : String) : Type 0 where
    pub url : String
    pub text : String
    pub policy : Fields
    pub dlq_name : String
    pub dlq_url : String
    pub dlq_arn : String
    pub own : Tells service s (dlq_for c name) dlq_name
    pub has_url : Shows service (get_queue_url name) url s
    pub has_policy : Shows service (get_redrive_policy url) (some text) s
    pub parses : f.loads text ≡ some (obj policy)
    pub has_dlq_url : Shows service (get_queue_url dlq_name) dlq_url s
    pub has_dlq_arn : Shows service (get_queue_arn dlq_url) dlq_arn s
    pub target : is_text dlq_arn (get "deadLetterTargetArn" policy) ≡ true

  module _ (s : S) where
    targets-obj :
        (dlq_arn : String) (policy : Value)
        → Tells service s (targets f c dlq_arn policy) true
        → (fs : Fields) × (policy ≡ obj fs)
          × (is_text dlq_arn (get "deadLetterTargetArn" fs) ≡ true)
    unfolding Tells
    targets-obj dlq_arn (obj fs) h = (fs, refl, h)
    targets-obj dlq_arn _ h = absurd h

    parsed-some : (o : Option Value) (v : Value) → Tells service s (parsed f c o) v → o ≡ some v
    unfolding Tells
    parsed-some none v h = absurd h
    parsed-some (some u) v h = ap some h

    redrives-IsRedriven :
        (name url : String) (policy : Option String)
        → Shows service (get_queue_url name) url s
        → Shows service (get_redrive_policy url) policy s
        → Tells service s (redrives f c name policy) true
        → IsRedriven s name
    unfolding Tells verify queue_url queue_arn
    redrives-IsRedriven name url none has_url has_policy h = absurd (ground arith)
    redrives-IsRedriven name url (some text) has_url has_policy h =
        let (v, p, h₁) = bind-Tells service s (parsed f c (f.loads text)) _ true h in
        let (dlq_name, own, (dlq_url, has_dlq_url, (dlq_arn, has_dlq_arn, h₂))) =
          bind-Tells service s (dlq_for c name) _ true h₁ in
        let (fs, q, target) = targets-obj dlq_arn v h₂ in
        record {
          url = url;
          text = text;
          policy = fs;
          dlq_name = dlq_name;
          dlq_url = dlq_url;
          dlq_arn = dlq_arn;
          own = own;
          has_url = has_url;
          has_policy = has_policy;
          parses = parsed-some (f.loads text) v p ∙ ap some q;
          has_dlq_url = has_dlq_url;
          has_dlq_arn = has_dlq_arn;
          target = target;
        }

    verify-IsRedriven : (name : String) → Tells service s (verify f c name) true → IsRedriven s name
    unfolding Tells verify
    verify-IsRedriven name (url, has_url, (policy, has_policy, h)) =
        redrives-IsRedriven name url policy has_url has_policy h

    pub verify_all-IsRedriven :
        (names : List String) → Tells service s (verify_all f c names) 0 → All (IsRedriven s) names
    unfolding Tells verify_all
    verify_all-IsRedriven [] h = tt
    verify_all-IsRedriven (name ∷ names) h =
        let (passes, p, q) = bind-Tells service s (verify f c name) _ 0 h in
        split passes p q (verify_all-IsRedriven names)
      where
        split :
            (passes : Bool)
            → Tells service s (verify f c name) passes
            → Tells service s (if passes then verify_all f c names else done 1) 0
            → (Tells service s (verify_all f c names) 0 → All (IsRedriven s) names)
            → IsRedriven s name × All (IsRedriven s) names
        split true p q rest = (verify-IsRedriven name p, rest q)
        split false p q rest = absurd (omega (arith, q))
