-- ===== src/Bootstrap/Subscribed.antt =====
-- What the check of the subscriptions tells.
use outbox_fanout.Prelude.{String, true, ◌≡◌, refl, sym, subst, List, [], ◌∷◌, arith, inl, inr}
use outbox_fanout.Prelude.Predicates.{All, All-map, In}
use outbox_fanout.Formats.{Formats}
use outbox_fanout.Config.{Config}
use outbox_fanout.Cloud.{done, get_queue_url, get_queue_arn, list_subscriptions, Service}
use outbox_fanout.Cloud.Runs.{Shows, Tells, bind-Tells}
use outbox_fanout.Bootstrap.{expected_arns, is_subscribed, all_subscribed}

module _ {S : Type 0} (f : Formats) (c : Config) (service : Service S) where
  -- The queue exists and its ARN is among these.
  pub record IsListed (arns : List String) (s : S) (name : String) : Type 0 where
    pub url : String
    pub arn : String
    pub has_url : Shows service (get_queue_url name) url s
    pub has_arn : Shows service (get_queue_arn url) arn s
    pub listed : In arn arns

  -- The queue is subscribed to the topic.
  pub record IsSubscribed (topic : String) (s : S) (name : String) : Type 0 where
    pub url : String
    pub arn : String
    pub endpoints : List String
    pub has_url : Shows service (get_queue_url name) url s
    pub has_arn : Shows service (get_queue_arn url) arn s
    pub has_endpoints : Shows service (list_subscriptions topic) endpoints s
    pub subscribed : is_subscribed f c endpoints arn ≡ true

  pub all_subscribed-In :
      (endpoints arns : List String) (arn : String)
      → all_subscribed f c endpoints arns ≡ true
      → In arn arns
      → is_subscribed f c endpoints arn ≡ true
  all_subscribed-In endpoints [] arn h m = absurd m
  all_subscribed-In endpoints (x ∷ xs) arn h (inl here) =
      subst (λ a. is_subscribed f c endpoints a ≡ true) (sym here) (ground arith)
  all_subscribed-In endpoints (x ∷ xs) arn h (inr m) =
      all_subscribed-In endpoints xs arn (ground arith) m

  module _ (s : S) where
    IsListed-later :
        (arn name : String) (arns : List String)
        → IsListed arns s name
        → IsListed (arn ∷ arns) s name
    IsListed-later arn name arns h = record {
      url = h.url;
      arn = h.arn;
      has_url = h.has_url;
      has_arn = h.has_arn;
      listed = inr h.listed;
    }

    pub expected_arns-IsListed :
        (names arns : List String)
        → Tells service s (expected_arns f c names) arns
        → All (IsListed arns s) names
    unfolding expected_arns Tells
    expected_arns-IsListed [] arns h = tt
    expected_arns-IsListed (name ∷ names) arns (url, has_url, (arn, has_arn, h)) =
        let (rest, p, q) =
          bind-Tells service s (expected_arns f c names) (λ xs. done (arn ∷ xs)) arns h in
        subst (λ xs. All (IsListed xs s) (name ∷ names)) q
          (
            record {
              url = url;
              arn = arn;
              has_url = has_url;
              has_arn = has_arn;
              listed = inl refl;
            },
            All-map (IsListed rest s) names (λ n. IsListed-later arn n rest)
                (expected_arns-IsListed names rest p),
          )
