-- ===== src/Cloud/Runs.antt =====
-- Taking the run of a script apart.
use outbox_fanout.Prelude.{ℕ, suc, String, ◌≡◌, refl, ◌∷◌, arith}
use outbox_fanout.Outcome.{ok}
use outbox_fanout.Relay.Publisher.{Reply, accepted, refused}
use outbox_fanout.Cloud.{
  Request, Query, Answer, Script, done, fail, request, read, ◌>>=◌, Service, Progress, requested,
  answered, run,
}

module _ {S : Type 0} (service : Service S) where
  -- The service answers this read so, at some call.
  abbrev pub Shows : (q : Query) → Answer q → S → Type 0
  Shows q a s = (n : ℕ) × (service.answer n q s ≡ accepted a)

  module _ {A : Type 0} where
    -- What a read that returned was told.
    pub read-returned :
        (q : Query) (k : Answer q → Script A) (w : Progress S) (a : A)
        → (run service (read q k) w).0 ≡ ok a
        → (x : Answer q) × (service.answer w.tick q w.state ≡ accepted x)
          × (run service (read q k) w ≡ run service (k x) (record w { tick = suc w.tick }))
    unfolding run
    read-returned q k w a h = split (service.answer w.tick q w.state) refl h
      where
        split :
            (r : Reply (Answer q))
            → service.answer w.tick q w.state ≡ r
            → (answered service (λ x. run service (k x)) r w).0 ≡ ok a
            → (x : Answer q) × (service.answer w.tick q w.state ≡ accepted x)
              × (run service (read q k) w ≡ run service (k x) (record w { tick = suc w.tick }))
        split (accepted x) p h = (x, p, rw p refl)
        split (refused e) p h = absurd (ground arith)

    -- What a request that returned was told, and what it did.
    pub request-returned :
        (r : Request) (k : String → Script A) (w : Progress S) (a : A)
        → (run service (request r k) w).0 ≡ ok a
        → (x : String) × ((service.apply w.tick r w.state).0 ≡ accepted x)
          × (run service (request r k) w
              ≡ run service (k x) (record {
                state = (service.apply w.tick r w.state).1;
                made = (r, x) ∷ w.made;
                tick = suc w.tick;
              }))
    unfolding run
    request-returned r k w a h = split (service.apply w.tick r w.state).0 refl h
      where
        split :
            (y : Reply String)
            → (service.apply w.tick r w.state).0 ≡ y
            → (requested service r
                (λ x. run service (k x))
                y
                (service.apply w.tick r w.state).1
                w).0
              ≡ ok a
            → (x : String) × ((service.apply w.tick r w.state).0 ≡ accepted x)
              × (run service (request r k) w
                  ≡ run service (k x) (record {
                    state = (service.apply w.tick r w.state).1;
                    made = (r, x) ∷ w.made;
                    tick = suc w.tick;
                  }))
        split (accepted x) p h = (x, p, rw p refl)
        split (refused e) p h = absurd (ground arith)

  module _ {A B : Type 0} (k : A → Script B) where
    -- A sequence that returned ran its second part behind its first.
    pub bind-returned :
        (m : Script A) (w : Progress S) (b : B)
        → (run service (m >>= k) w).0 ≡ ok b
        → (a : A) × ((run service m w).0 ≡ ok a)
          × (run service (m >>= k) w ≡ run service (k a) (run service m w).1)
    unfolding run
    bind-returned (done a) w b h = (a, refl, refl)
    bind-returned (fail e) w b h = absurd (ground arith)
    bind-returned (request r next) w b h =
        let (x, p, q) = request-returned r (λ reply. next reply >>= k) w b h in
        let (a, s, t) = bind-returned (next x) _ b (rw q at h) in (a, rw p s, rw p t)
    bind-returned (read q next) w b h =
        let (x, p, r) = read-returned q (λ reply. next reply >>= k) w b h in
        let (a, s, t) = bind-returned (next x) _ b (rw r at h) in (a, rw p s, rw p t)

-- A script that makes no request.
unfoldable pub IsReading : {A : Type 0} → Script A → Type 0
IsReading (done a) = Unit
IsReading (fail e) = Unit
IsReading (request r k) = ⊥
IsReading (read q k) = (x : Answer q) → IsReading (k x)

pub bind-IsReading :
    {A B : Type 0} (m : Script A) (k : A → Script B)
    → IsReading m
    → ((a : A) → IsReading (k a))
    → IsReading (m >>= k)
unfolding IsReading
bind-IsReading (done a) k h g = g a
bind-IsReading (fail e) k h g = tt
bind-IsReading (request r n) k h g = absurd h
bind-IsReading (read q n) k h g = λ x. bind-IsReading (n x) k (h x) g

-- It leaves the service and the record of requests alone.
pub run-IsReading :
    {S A : Type 0} (service : Service S) (m : Script A) (w : Progress S)
    → IsReading m
    → ((run service m w).1.state ≡ w.state) × ((run service m w).1.made ≡ w.made)
unfolding run IsReading
run-IsReading service (done a) w h = (refl, refl)
run-IsReading service (fail e) w h = (refl, refl)
run-IsReading service (request r k) w h = absurd h
run-IsReading {S} service (read q k) w h =
    split (service.answer w.tick q w.state) (λ x w'. run-IsReading service (k x) w' (h x))
  where
    split :
        (r : Reply (Answer q))
        → ((x : Answer q) (w' : Progress S)
            → ((run service (k x) w').1.state ≡ w'.state)
              × ((run service (k x) w').1.made ≡ w'.made))
        → ((answered service (λ x. run service (k x)) r w).1.state ≡ w.state)
          × ((answered service (λ x. run service (k x)) r w).1.made ≡ w.made)
    split (accepted x) rest = rest x (record w { tick = suc w.tick })
    split (refused e) rest = (refl, refl)

-- A script that makes no request can return this value in this state of the service.
unfoldable pub Tells : {S A : Type 0} → Service S → S → Script A → A → Type 0
Tells service s (done b) a = b ≡ a
Tells service s (fail e) a = ⊥
Tells service s (request r k) a = ⊥
Tells service s (read q k) a = (x : Answer q) × Shows service q x s × Tells service s (k x) a

pub bind-Tells :
    {S A B : Type 0} (service : Service S) (s : S) (m : Script A) (k : A → Script B) (b : B)
    → Tells service s (m >>= k) b
    → (a : A) × Tells service s m a × Tells service s (k a) b
unfolding Tells
bind-Tells service s (done a) k b h = (a, refl, h)
bind-Tells service s (fail e) k b h = absurd h
bind-Tells service s (request r n) k b h = absurd h
bind-Tells service s (read q n) k b (x, shown, h) =
    let (a, t, u) = bind-Tells service s (n x) k b h in (a, (x, shown, t), u)

pub run-Tells :
    {S A : Type 0} (service : Service S) (m : Script A) (w : Progress S) (a : A)
    → IsReading m
    → (run service m w).0 ≡ ok a
    → Tells service w.state m a
unfolding run IsReading Tells
run-Tells service (done b) w a r h = ground arith
run-Tells service (fail e) w a r h = absurd (ground arith)
run-Tells service (request q k) w a r h = absurd r
run-Tells service (read q k) w a r h =
    let (x, p, t) = read-returned service q k w a h in
    (x, (w.tick, p), run-Tells service (k x) (record w { tick = suc w.tick }) a (r x) (rw t at h))
