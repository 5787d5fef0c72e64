-- ===== src/Cloud/Ensured.antt =====
-- A service that answers every call and shows at once what it was told, and what a script is sure to
-- return against it.
use outbox_fanout.Prelude.{
  Bool, ◌+◌, ◌≤◌, length, take, take-all, count, arith, ℕ, String, true, false, ◌≡◌, refl, Option,
  none, some, List, [], ◌∷◌, any, str_eq, if◌then◌else◌,
}
use outbox_fanout.Prelude.Predicates.{All, In, All-In, All-map₂}
use outbox_fanout.Outcome.{ok}
use outbox_fanout.Relay.Publisher.{accepted}
use outbox_fanout.Cloud.{
  Attributes, Request, create_topic, create_queue, set_queue_attributes, subscribe, Query,
  get_queue_arn, get_queue_url, list_subscriptions, get_redrive_policy, Answer, Script, done, fail,
  request, read, ◌>>=◌, Service, Progress, run,
}
use outbox_fanout.Cloud.Rerun.{overwrites, IsClashless, IsIdempotent, InEffect}

abbrev pub attribute : String → Attributes → Option String
attribute key [] = none
attribute key (a ∷ kvs) = let rest = attribute key kvs in if str_eq key a.0 then some a.1 else rest

-- A call that subscribes, of the requests made by then.
abbrev pub is_subscription : Request × String → Bool
is_subscription (subscribe topic endpoint, x) = true
is_subscription _ = false

abbrev pub subscriptions : List (Request × String) → ℕ
subscriptions made = count is_subscription made

-- SNS and SQS where no call fails and nothing is delayed. A queue has one URL and one ARN, and a URL is
-- of one queue; a read of what a request has set up shows it at once, while the request is in effect.
-- (AWS may take up to a minute for the attributes of a queue.) A list of the subscriptions of a topic
-- has the first hundred only; a request adds at most one subscription, and only if it subscribes.
pub record IsAnswering {S : Type 0} (service : Service S)
    (in_effect : Request → String → S → Type 0) (url arn : String → String) : Type 0 where
  pub takes : (n : ℕ) (r : Request) (s : S) → (x : String) × ((service.apply n r s).0 ≡ accepted x)
  pub queue-url :
      (n : ℕ) (name : String) (s : S) (x : String)
      → (service.apply n (create_queue name) s).0 ≡ accepted x
      → x ≡ url name
  pub one-queue : (a b : String) → url a ≡ url b → a ≡ b
  pub tells-url :
      (n : ℕ) (name : String) (s : S)
      → in_effect (create_queue name) (url name) s
      → service.answer n (get_queue_url name) s ≡ accepted (url name)
  pub tells-arn :
      (n : ℕ) (name : String) (s : S)
      → in_effect (create_queue name) (url name) s
      → service.answer n (get_queue_arn (url name)) s ≡ accepted (arn name)
  -- the endpoints that are subscribed to a topic
  pub subscribed : String → S → List String
  pub subscribes :
      (topic endpoint x : String) (s : S)
      → in_effect (subscribe topic endpoint) x s
      → any (str_eq endpoint) (subscribed topic s) ≡ true
  pub adds :
      (n : ℕ) (r : Request) (x topic : String) (s : S)
      → length (subscribed topic (service.apply n r s).1)
        ≤ length (subscribed topic s) + subscriptions ((r, x) ∷ [])
  pub tells-subscriptions :
      (n : ℕ) (name topic : String) (s : S)
      → in_effect (create_topic name) topic s
      → service.answer n (list_subscriptions topic) s ≡ accepted (take 100 (subscribed topic s))
  pub tells-redrive :
      (n : ℕ) (u : String) (kvs : Attributes) (x text : String) (s : S)
      → in_effect (set_queue_attributes u kvs) x s
      → attribute "RedrivePolicy" kvs ≡ some text
      → service.answer n (get_redrive_policy u) s ≡ accepted (some text)

module _ (url arn : String → String) where
  abbrev pub Replied : Request → String → Type 0
  Replied (create_queue name) x = x ≡ url name
  Replied _ x = Unit

  -- The read is answered behind these requests, and whatever the answer, `K` holds of it.
  abbrev pub Told : List (Request × String) → (q : Query) → (Answer q → Type 0) → Type 0
  Told made (get_queue_url name) K = In (create_queue name, url name) made × K (url name)
  Told made (get_queue_arn u) K =
      (name : String) × (u ≡ url name) × In (create_queue name, url name) made × K (arn name)
  Told made (list_subscriptions topic) K =
      (name : String) × In (create_topic name, topic) made
      × (subscriptions made ≤ 3)
      × ((endpoints : List String)
          → ((endpoint x : String)
              → In (subscribe topic endpoint, x) made
              → any (str_eq endpoint) endpoints ≡ true)
          → K endpoints)
  Told made (get_redrive_policy u) K =
      (kvs : Attributes) × (x : String) × (text : String) × In (set_queue_attributes u kvs, x) made
      × (attribute "RedrivePolicy" kvs ≡ some text)
      × K (some text)

  -- Behind these requests, the script returns, no request of it overwrites an earlier one, and `Q`
  -- holds of its value and of the requests made by then.
  unfoldable pub Ensured :
      {A : Type 0}
      → Script A
      → List (Request × String)
      → (A → List (Request × String) → Type 0)
      → Type 0
  Ensured (done a) made Q = Q a made
  Ensured (fail e) made Q = ⊥
  Ensured (request r k) made Q =
      All (λ q. overwrites r q.0 ≡ false) made
      × ((x : String) → Replied r x → Ensured (k x) ((r, x) ∷ made) Q)
  Ensured (read q k) made Q = Told made q (λ x. Ensured (k x) made Q)

  pub bind-Ensured :
      {A B : Type 0} (m : Script A) (k : A → Script B) (made : List (Request × String))
      (Q : B → List (Request × String) → Type 0)
      → Ensured m made (λ a more. Ensured (k a) more Q)
      → Ensured (m >>= k) made Q
  unfolding Ensured
  bind-Ensured (done a) k made Q h = h
  bind-Ensured (fail e) k made Q h = absurd h
  bind-Ensured (request r n) k made Q (clear, h) =
      (clear, λ x replied. bind-Ensured (n x) k _ Q (h x replied))
  bind-Ensured (read (get_queue_url name) n) k made Q (there, h) =
      (there, bind-Ensured (n (url name)) k made Q h)
  bind-Ensured (read (get_queue_arn u) n) k made Q (name, same, there, h) =
      (name, same, there, bind-Ensured (n (arn name)) k made Q h)
  bind-Ensured (read (list_subscriptions topic) n) k made Q (name, there, few, h) =
      (name, there, few, λ endpoints all. bind-Ensured (n endpoints) k made Q (h endpoints all))
  bind-Ensured (read (get_redrive_policy u) n) k made Q (kvs, x, text, there, has, h) =
      (kvs, x, text, there, has, bind-Ensured (n (some text)) k made Q h)

  pub Ensured-map :
      {A : Type 0} (m : Script A) (made : List (Request × String))
      (P Q : A → List (Request × String) → Type 0)
      → ((a : A) (more : List (Request × String)) → P a more → Q a more)
      → Ensured m made P
      → Ensured m made Q
  unfolding Ensured
  Ensured-map (done a) made P Q g h = g a made h
  Ensured-map (fail e) made P Q g h = absurd h
  Ensured-map (request r n) made P Q g (clear, h) =
      (clear, λ x replied. Ensured-map (n x) _ P Q g (h x replied))
  Ensured-map (read (get_queue_url name) n) made P Q g (there, h) =
      (there, Ensured-map (n (url name)) made P Q g h)
  Ensured-map (read (get_queue_arn u) n) made P Q g (name, same, there, h) =
      (name, same, there, Ensured-map (n (arn name)) made P Q g h)
  Ensured-map (read (list_subscriptions topic) n) made P Q g (name, there, few, h) =
      (name, there, few, λ endpoints all. Ensured-map (n endpoints) made P Q g (h endpoints all))
  Ensured-map (read (get_redrive_policy u) n) made P Q g (kvs, x, text, there, has, h) =
      (kvs, x, text, there, has, Ensured-map (n (some text)) made P Q g h)

  module _ {S : Type 0} (service : Service S) (in_effect : Request → String → S → Type 0)
      (law : IsIdempotent service in_effect)
      (answering : IsAnswering service in_effect url arn) where
    replied :
        (n : ℕ) (r : Request) (s : S) (x : String)
        → (service.apply n r s).0 ≡ accepted x
        → Replied r x
    replied n (create_queue name) s x p = answering.queue-url n name s x p
    replied n (create_topic name) s x p = tt
    replied n (set_queue_attributes u kvs) s x p = tt
    replied n (subscribe topic endpoint) s x p = tt
    replied n (Request.set_subscription_attributes a k v) s x p = tt

    -- A list of at most a hundred is whole.
    whole_page :
        (topic endpoint x : String) (s : S)
        → length (answering.subscribed topic s) ≤ 100
        → in_effect (subscribe topic endpoint) x s
        → any (str_eq endpoint) (take 100 (answering.subscribed topic s)) ≡ true
    whole_page topic endpoint x s few there =
        rw (take-all 100 (answering.subscribed topic s) few)
          (answering.subscribes topic endpoint x s there)

    -- The topics had no more than 97 subscriptions before these requests.
    abbrev pub HasRoom : S → List (Request × String) → Type 0
    HasRoom s made =
        (topic : String) → length (answering.subscribed topic s) ≤ 97 + subscriptions made

    room_behind :
        (n : ℕ) (r : Request) (x : String) (s : S) (made : List (Request × String))
        → HasRoom s made
        → HasRoom (service.apply n r s).1 ((r, x) ∷ made)
    room_behind n r x s made room topic = ground (arith, room topic, answering.adds n r x topic s)

    -- What is ensured is what a run returns, and no request overwrites an earlier one.
    pub run-Ensured :
        {A : Type 0} (m : Script A) (w : Progress S) (Q : A → List (Request × String) → Type 0)
        → All (InEffect service in_effect law w.state) w.made
        → IsClashless w.made
        → HasRoom w.state w.made
        → Ensured m w.made Q
        → (a : A) × ((run service m w).0 ≡ ok a)
          × Q a (run service m w).1.made
          × IsClashless (run service m w).1.made
    unfolding run Ensured IsClashless
    run-Ensured (done a) w Q there clashless room h = (a, refl, h, clashless)
    run-Ensured (fail e) w Q there clashless room h = absurd h
    run-Ensured (request r k) w Q there clashless room (clear, h) =
        let (x, p) = answering.takes w.tick r w.state in
        rw p (
          run-Ensured (k x) _ Q
            (
              law.effect w.tick r w.state x p,
              All-map₂ _ _ w.made (λ y safe held. law.keeps w.tick y.0 r w.state y.1 held safe)
                  clear there,
            )
            (clear, clashless) (room_behind w.tick r x w.state w.made room)
            (h x (replied w.tick r w.state x p)))
    run-Ensured (read (get_queue_url name) k) w Q there clashless room (set_up, h) =
        rw (answering.tells-url w.tick name w.state (All-In _ w.made _ there set_up))
          (run-Ensured (k (url name)) _ Q there clashless room h)
    run-Ensured (read (get_queue_arn u) k) w Q there clashless room (name, same, set_up, h) =
        rw (same, answering.tells-arn w.tick name w.state (All-In _ w.made _ there set_up))
          (run-Ensured (k (arn name)) _ Q there clashless room h)
    run-Ensured (read (list_subscriptions topic) k) w Q there clashless room
          (name, set_up, few, h) =
        let whole : length (answering.subscribed topic w.state) ≤ 100 =
          omega (arith, few, room topic) in
        rw
          (answering.tells-subscriptions w.tick name topic w.state (All-In _ w.made _ there set_up))
          (run-Ensured (k (take 100 (answering.subscribed topic w.state))) _ Q there clashless room
            (h (take 100 (answering.subscribed topic w.state)) (λ endpoint x m.
              whole_page topic endpoint x w.state whole (All-In _ w.made _ there m))))
    run-Ensured (read (get_redrive_policy u) k) w Q there clashless room
          (kvs, x, text, set_up, has, h) =
        rw
          (answering.tells-redrive w.tick u kvs x text w.state (All-In _ w.made _ there set_up) has)
          (run-Ensured (k (some text)) _ Q there clashless room h)
