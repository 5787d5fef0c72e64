-- ===== src/Cloud.antt =====
-- The control plane of SNS and SQS, as shared/aws.py and bootstrap/main.py call it.
-- A program that provisions is a Script: the requests and reads that it makes, each with what it does
-- next. The service is outside the repository: a parameter that answers each call as it likes, over a
-- state of its own, which only requests may change.
pub mod Runs
pub mod Rerun
pub mod Ensured
use outbox_fanout.Prelude.{ℕ, suc, String, Option, List, ◌∷◌}
use outbox_fanout.Outcome.{Exc, Outcome, ok, raise}
use outbox_fanout.Relay.Publisher.{Reply, accepted, refused}

abbrev pub Attributes : Type 0
Attributes = List (String × String)

-- The calls that write. Each is answered by a text: an ARN, a URL, or nothing of interest.
pub data Request : Type 0 where
  create_topic : String → Request
  create_queue : String → Request
  set_queue_attributes : String → Attributes → Request
  subscribe : String → String → Request
  set_subscription_attributes : String → String → String → Request

-- The calls that read.
pub data Query : Type 0 where
  get_queue_url : String → Query
  get_queue_arn : String → Query
  -- the endpoints of the subscriptions of a topic, on the first page
  list_subscriptions : String → Query
  get_redrive_policy : String → Query

abbrev pub Answer : Query → Type 0
Answer (get_queue_url name) = String
Answer (get_queue_arn url) = String
Answer (list_subscriptions topic) = List String
Answer (get_redrive_policy url) = Option String

pub data Script (A : Type 0) : Type 0 where
  done : A → Script A
  fail : Exc → Script A
  request : Request → (String → Script A) → Script A
  read : (q : Query) → (Answer q → Script A) → Script A

infixl 5 ◌>>=◌ ◌>>◌
abbrev pub ◌>>=◌ : {A B : Type 0} → Script A → (A → Script B) → Script B
done a >>= f = f a
fail e >>= f = fail e
request r k >>= f = request r (λ reply. k reply >>= f)
read q k >>= f = read q (λ answer. k answer >>= f)

abbrev pub ◌>>◌ : {A B : Type 0} → Script A → Script B → Script B
m >> n = m >>= λ _. n

abbrev pub call : Request → Script String
call r = request r done

abbrev pub ask : (q : Query) → Script (Answer q)
ask q = read q done

pub record Service (S : Type 0) : Type 0 where
  pub apply : ℕ → Request → S → Reply String × S
  pub answer : ℕ → (q : Query) → S → Reply (Answer q)

-- `made` has the requests that were answered, with their replies, the newest first.
pub record Progress (S : Type 0) : Type 0 where
  pub state : S
  pub made : List (Request × String)
  pub tick : ℕ

module _ {S : Type 0} (service : Service S) {A : Type 0} where
  abbrev requested :
      Request
      → (String → Progress S → Outcome A × Progress S)
      → Reply String
      → S
      → Progress S
      → Outcome A × Progress S
  requested r next (accepted reply) s w =
      next reply (record { state = s; made = (r, reply) ∷ w.made; tick = suc w.tick })
  requested r next (refused e) s w = (raise e, record w { state = s; tick = suc w.tick })

  abbrev answered :
      {B : Type 0}
      → (B → Progress S → Outcome A × Progress S)
      → Reply B
      → Progress S
      → Outcome A × Progress S
  answered next (accepted a) w = next a (record w { tick = suc w.tick })
  answered next (refused e) w = (raise e, record w { tick = suc w.tick })

  -- A script against the service. An exception of a call ends it.
  unfoldable pub run : Script A → Progress S → Outcome A × Progress S
  run (done a) w = (ok a, w)
  run (fail e) w = (raise e, w)
  run (request r k) w =
      let (reply, s) = service.apply w.tick r w.state in requested r (λ x. run (k x)) reply s w
  run (read q k) w = answered (λ x. run (k x)) (service.answer w.tick q w.state) w
