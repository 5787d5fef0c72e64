-- ===== src/Cloud/Rerun.antt =====
-- Running a script again against the service that it has set up.
use outbox_fanout.Prelude.{
  ℕ, String, Bool, false, ◌&&◌, not, ◌≡◌, refl, ◌⊎◌, inl, inr, ◌∙◌, List, [], ◌∷◌, any, str_eq,
}
use outbox_fanout.Prelude.Predicates.{All, All-map₂}
use outbox_fanout.Outcome.{Exc, ok}
use outbox_fanout.Relay.Publisher.{Reply, accepted, refused}
use outbox_fanout.Cloud.{
  Attributes, Request, set_queue_attributes, set_subscription_attributes, Query, get_queue_arn,
  get_queue_url, list_subscriptions, get_redrive_policy, Answer, Script, done, fail, request, read,
  ◌>>=◌, Service, Progress, requested, answered, run,
}
use outbox_fanout.Cloud.Runs.{read-returned, request-returned, IsReading, run-IsReading}

-- Some key has another value in the second list than in the first.
abbrev pub differs : Attributes → Attributes → Bool
differs kvs = any (λ b. any (λ a. str_eq a.0 b.0 && not (str_eq a.1 b.1)) kvs)

-- The first request sets an attribute that the second has set to another value.
abbrev pub overwrites : Request → Request → Bool
overwrites (set_queue_attributes url new) (set_queue_attributes url' old) =
    str_eq url url' && differs new old
overwrites (set_subscription_attributes s k v) (set_subscription_attributes s' k' v') =
    str_eq s s' && str_eq k k' && not (str_eq v v')
overwrites _ _ = false

-- No request overwrites an earlier one; the newest is the first.
unfoldable pub IsClashless : List (Request × String) → Type 0
IsClashless [] = Unit
IsClashless (p ∷ ps) = All (λ q. overwrites p.0 q.0 ≡ false) ps × IsClashless ps

-- What SNS and SQS say of these calls: each is idempotent, so a request that is in effect changes
-- nothing and is answered as before, where it is answered; it stays in effect until another one
-- overwrites it; and a queue keeps its ARN.
pub record IsIdempotent {S : Type 0} (service : Service S)
    (in_effect : Request → String → S → Type 0) : Type 0 where
  pub effect :
      (n : ℕ) (r : Request) (s : S) (x : String)
      → (service.apply n r s).0 ≡ accepted x
      → in_effect r x (service.apply n r s).1
  pub repeat :
      (n : ℕ) (r : Request) (s : S) (x : String)
      → in_effect r x s
      → ((service.apply n r s).1 ≡ s)
        × (((service.apply n r s).0 ≡ accepted x)
            ⊎ ((e : Exc) × ((service.apply n r s).0 ≡ refused e)))
  pub keeps :
      (n : ℕ) (r r' : Request) (s : S) (x : String)
      → in_effect r x s
      → overwrites r' r ≡ false
      → in_effect r x (service.apply n r' s).1
  pub arn :
      (n m : ℕ) (url : String) (s t : S) (x y : String)
      → service.answer n (get_queue_arn url) s ≡ accepted x
      → service.answer m (get_queue_arn url) t ≡ accepted y
      → x ≡ y

IsClashless-tail :
    (p : Request × String) (ps : List (Request × String)) → IsClashless (p ∷ ps) → IsClashless ps
unfolding IsClashless
IsClashless-tail p ps h = h.1

abbrev pub IsFixed : Query → Type 0
IsFixed (get_queue_arn url) = Unit
IsFixed _ = ⊥

-- A script that reads only what never changes.
unfoldable pub IsSteady : {A : Type 0} → Script A → Type 0
IsSteady (done a) = Unit
IsSteady (fail e) = Unit
IsSteady (request r k) = (x : String) → IsSteady (k x)
IsSteady (read q k) = IsFixed q × ((x : Answer q) → IsSteady (k x))

-- A script whose requests depend only on what never changes: behind any other read it makes none.
unfoldable pub IsOrderly : {A : Type 0} → Script A → Type 0
unfolding IsReading
IsOrderly (done a) = Unit
IsOrderly (fail e) = Unit
IsOrderly (request r k) = (x : String) → IsOrderly (k x)
IsOrderly (read q k) =
    (IsFixed q × ((x : Answer q) → IsOrderly (k x))) ⊎ ((x : Answer q) → IsReading (k x))

module _ {A B : Type 0} (k : A → Script B) where
  pub bind-IsSteady : (m : Script A) → IsSteady m → ((a : A) → IsSteady (k a)) → IsSteady (m >>= k)
  unfolding IsSteady
  bind-IsSteady (done a) h g = g a
  bind-IsSteady (fail e) h g = tt
  bind-IsSteady (request r n) h g = λ x. bind-IsSteady (n x) (h x) g
  bind-IsSteady (read q n) h g = (h.0, λ x. bind-IsSteady (n x) (h.1 x) g)

  pub bind-IsOrderly :
      (m : Script A) → IsSteady m → ((a : A) → IsOrderly (k a)) → IsOrderly (m >>= k)
  unfolding IsSteady IsOrderly
  bind-IsOrderly (done a) h g = g a
  bind-IsOrderly (fail e) h g = tt
  bind-IsOrderly (request r n) h g = λ x. bind-IsOrderly (n x) (h x) g
  bind-IsOrderly (read q n) h g = inl (h.0, λ x. bind-IsOrderly (n x) (h.1 x) g)

module _ {S : Type 0} (service : Service S) where
  -- The record of requests only grows: what every longer record hands down, it hands down.
  module _ (P : List (Request × String) → Type 0)
      (tail : (p : Request × String) (ps : List (Request × String)) → P (p ∷ ps) → P ps) where
    made-tail : {A : Type 0} (m : Script A) (w : Progress S) → P (run service m w).1.made → P w.made
    unfolding run
    made-tail (done a) w h = h
    made-tail (fail e) w h = h
    made-tail (request r k) w h =
        split (service.apply w.tick r w.state).0 (λ x w'. made-tail (k x) w') h
      where
        split :
            (y : Reply String)
            → ((x : String) (w' : Progress S) → P (run service (k x) w').1.made → P w'.made)
            → P
                (requested service r
                  (λ x. run service (k x))
                  y
                  (service.apply w.tick r w.state).1
                  w).1.made
            → P w.made
        split (accepted x) rest h = tail _ _ (rest x _ h)
        split (refused e) rest h = h
    made-tail (read q k) w h =
        split (service.answer w.tick q w.state) (λ x w'. made-tail (k x) w') h
      where
        split :
            (y : Reply (Answer q))
            → ((x : Answer q) (w' : Progress S) → P (run service (k x) w').1.made → P w'.made)
            → P (answered service (λ x. run service (k x)) y w).1.made
            → P w.made
        split (accepted x) rest h = rest x _ h
        split (refused e) rest h = h

  module _ (in_effect : Request → String → S → Type 0) (law : IsIdempotent service in_effect) where
    abbrev pub InEffect : S → Request × String → Type 0
    InEffect s p = in_effect p.0 p.1 s

    fixed-answer :
        (q : Query)
        → IsFixed q
        → (n m : ℕ) (s t : S) (x y : Answer q) → service.answer n q s ≡ accepted x
        → service.answer m q t ≡ accepted y
        → x ≡ y
    fixed-answer (get_queue_arn url) fixed n m s t x y p q = law.arn n m url s t x y p q
    fixed-answer (get_queue_url name) fixed n m s t x y p q = absurd fixed
    fixed-answer (list_subscriptions topic) fixed n m s t x y p q = absurd fixed
    fixed-answer (get_redrive_policy url) fixed n m s t x y p q = absurd fixed

    module _ {A : Type 0} where
      -- The requests that a script made are made again from any state that they are in effect in, and
      -- change nothing, also where the service fails this time.
      pub run-again :
          (m : Script A) (w v : Progress S) (a : A)
          → IsOrderly m
          → (run service m w).0 ≡ ok a
          → All (InEffect v.state) (run service m w).1.made
          → (run service m v).1.state ≡ v.state
      unfolding run IsOrderly
      run-again (done a) w v b o h there = refl
      run-again (fail e) w v b o h there = refl
      run-again (request r k) w v b o h there =
          let (x, p, q) = request-returned service r k w b h in
          let now = made-tail (All (InEffect v.state)) (λ p ps h. h.1) (k x) _ (rw q at there) in
          let (same, reply) = law.repeat v.tick r v.state x now.0 in
          split x reply same
            (λ v' kept. run-again (k x) _ v' b (o x) (rw q at h) (rw (kept, ← q) there))
        where
          split :
              (x : String)
              → ((service.apply v.tick r v.state).0 ≡ accepted x)
                ⊎ ((e : Exc) × ((service.apply v.tick r v.state).0 ≡ refused e))
              → (service.apply v.tick r v.state).1 ≡ v.state
              → ((v' : Progress S) → v'.state ≡ v.state → (run service (k x) v').1.state ≡ v'.state)
              → (run service (request r k) v).1.state ≡ v.state
          split x (inl p) same rest = rw p (rest _ same ∙ same)
          split x (inr (e, p)) same rest = rw p same
      run-again (read q k) w v b (inr reading) h there =
          (run-IsReading service (read q k) v reading).0
      run-again (read q k) w v b (inl (fixed, o)) h there =
          let (x, p, r) = read-returned service q k w b h in
          split x p (service.answer v.tick q v.state) refl
            (λ v' kept. run-again (k x) _ v' b (o x) (rw r at h) (rw (kept, ← r) there))
        where
          split :
              (x : Answer q)
              → service.answer w.tick q w.state ≡ accepted x
              → (y : Reply (Answer q)) → service.answer v.tick q v.state ≡ y
              → ((v' : Progress S) → v'.state ≡ v.state → (run service (k x) v').1.state ≡ v'.state)
              → (run service (read q k) v).1.state ≡ v.state
          split x p (accepted y) t rest =
              rw (t, fixed-answer q fixed v.tick w.tick v.state w.state y x t p) (rest _ refl)
          split x p (refused e) t rest = rw t refl

      -- Where no request of a script overwrites another, all are in effect when it returns.
      pub run-InEffect :
          (m : Script A) (w : Progress S) (a : A)
          → (run service m w).0 ≡ ok a
          → IsClashless (run service m w).1.made
          → All (InEffect w.state) w.made
          → All (InEffect (run service m w).1.state) (run service m w).1.made
      unfolding run IsClashless
      run-InEffect (done a) w b h clashless there = there
      run-InEffect (fail e) w b h clashless there = there
      run-InEffect (request r k) w b h clashless there =
          let (x, p, q) = request-returned service r k w b h in
          let now = made-tail IsClashless IsClashless-tail (k x) _ (rw q at clashless) in
          rw q (
            run-InEffect (k x) _ b (rw q at h) (rw q at clashless) (
              law.effect w.tick r w.state x p,
              All-map₂ _ _ w.made (λ y safe held. law.keeps w.tick y.0 r w.state y.1 held safe)
                  now.0 there,
            ))
      run-InEffect (read q k) w b h clashless there =
          let (x, p, r) = read-returned service q k w b h in
          rw r (run-InEffect (k x) _ b (rw r at h) (rw r at clashless) there)
