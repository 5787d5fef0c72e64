-- ===== src/Examples/Journal.antt =====
-- A service that keeps a journal of the requests that have an effect.
use outbox_fanout.Prelude.{
  take, String, Bool, true, false, ◌≡◌, refl, sym, ap, ◌∙◌, not, Option, none, some, List, [], ◌∷◌,
  ◌&&◌, ◌||◌, str_eq, str_eq_refl, if◌then◌else◌, inl, inr, arith, Bool-cases,
}
use outbox_fanout.Outcome.{client_error}
use outbox_fanout.Relay.Publisher.{Reply, accepted, refused}
use outbox_fanout.Cloud.{
  Attributes, Request, create_topic, create_queue, set_queue_attributes, subscribe,
  set_subscription_attributes, Query, get_queue_url, get_queue_arn, list_subscriptions,
  get_redrive_policy, Answer, Service,
}
use outbox_fanout.Cloud.Ensured.{attribute}
use outbox_fanout.Cloud.Rerun.{overwrites, IsIdempotent}

abbrev pub same_attributes : Attributes → Attributes → Bool
same_attributes [] [] = true
same_attributes (a ∷ kvs) (b ∷ kvs') =
    str_eq a.0 b.0 && (str_eq a.1 b.1 && same_attributes kvs kvs')
same_attributes _ _ = false

abbrev pub same : Request → Request → Bool
same (create_topic a) (create_topic b) = str_eq a b
same (create_queue a) (create_queue b) = str_eq a b
same (set_queue_attributes a kvs) (set_queue_attributes b kvs') =
    str_eq a b && same_attributes kvs kvs'
same (subscribe a x) (subscribe b y) = str_eq a b && str_eq x y
same (set_subscription_attributes a k v) (set_subscription_attributes b k' v') =
    str_eq a b && (str_eq k k' && str_eq v v')
same _ _ = false

-- The request was made, and no later one overwrote it.
abbrev pub in_force : Request → List Request → Bool
in_force r [] = false
in_force r (q ∷ journal) = same r q || (not (overwrites q r) && in_force r journal)

-- A queue, a topic and a subscription are called by their names.
abbrev pub reply : Request → String
reply (create_topic name) = name
reply (create_queue name) = name
reply (subscribe topic endpoint) = endpoint
reply _ = ""

abbrev pub endpoints_of : String → List Request → List String
endpoints_of topic [] = []
endpoints_of topic (subscribe t endpoint ∷ rs) =
    let rest = endpoints_of topic rs in if str_eq topic t then endpoint ∷ rest else rest
endpoints_of topic (_ ∷ rs) = endpoints_of topic rs

abbrev pub or_else : Option String → Option String → Option String
or_else none o = o
or_else (some t) o = some t

abbrev pub policy_of : String → List Request → Option String
policy_of url [] = none
policy_of url (set_queue_attributes u kvs ∷ rs) =
    let rest = policy_of url rs in
    if str_eq url u then or_else (attribute "RedrivePolicy" kvs) rest else rest
policy_of url (_ ∷ rs) = policy_of url rs

abbrev pub replied : (q : Query) → List Request → Reply (Answer q)
replied (get_queue_url name) journal =
    if in_force (create_queue name) journal
    then accepted name
    else refused (client_error (some "AWS.SimpleQueueService.NonExistentQueue"))
replied (get_queue_arn url) journal = accepted url
replied (list_subscriptions topic) journal = accepted (take 100 (endpoints_of topic journal))
replied (get_redrive_policy url) journal = accepted (policy_of url journal)

abbrev pub service : Service (List Request)
service = record {
  apply = λ n r s. (accepted (reply r), if in_force r s then s else r ∷ s);
  answer = λ n q s. replied q s;
}

same_attributes_refl : (kvs : Attributes) → same_attributes kvs kvs ≡ true
same_attributes_refl [] = refl
same_attributes_refl (a ∷ kvs) =
    rw (str_eq_refl a.0, str_eq_refl a.1, same_attributes_refl kvs) refl

pub same_refl : (r : Request) → same r r ≡ true
same_refl (create_topic a) = str_eq_refl a
same_refl (create_queue a) = str_eq_refl a
same_refl (set_queue_attributes a kvs) = rw (str_eq_refl a, same_attributes_refl kvs) refl
same_refl (subscribe a x) = rw (str_eq_refl a, str_eq_refl x) refl
same_refl (set_subscription_attributes a k v) =
    rw (str_eq_refl a, str_eq_refl k, str_eq_refl v) refl

-- A journal keeps what SNS and SQS document.
pub journal_law : IsIdempotent service (λ r x s. (in_force r s ≡ true) × (x ≡ reply r))
journal_law = record {
  effect = λ n r s x h. (recorded r s, sym (accepted_text (reply r) x h));
  repeat = λ n r s x h. (rw h.0 refl, inl (ap accepted (sym h.1)));
  keeps = λ n r r' s x h clear. (kept r r' s h.0 clear, h.1);
  arn = λ n m url s t x y h k. sym (accepted_text url x h) ∙ accepted_text url y k;
}
  where
    accepted_text : (a b : String) → accepted a ≡ accepted b → a ≡ b
    accepted_text a b h = ground arith

    recorded :
        (r : Request) (s : List Request) → in_force r (if in_force r s then s else r ∷ s) ≡ true
    recorded r s = elim (Bool-cases (in_force r s)) [
      | inl h ↦ rw (h, h) refl
      | inr h ↦ rw (h, same_refl r) refl
    ]

    kept :
        (r r' : Request) (s : List Request)
        → in_force r s ≡ true
        → overwrites r' r ≡ false
        → in_force r (if in_force r' s then s else r' ∷ s) ≡ true
    kept r r' s h clear = elim (Bool-cases (in_force r' s)) [
      | inl k ↦ rw k h
      | inr k ↦ ground arith
    ]
