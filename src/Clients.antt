-- ===== src/Clients.antt =====
-- The third-party clients of a process: `sns` and `sqs` of shared/aws.py, and `client` of
-- shared/redis_client.py. Their constructors are outside the repository: a parameter that builds a
-- client from its options or raises. `lru_cache(maxsize=1)` keeps the first result, and no exception.
pub mod Once
use outbox_fanout.Prelude.{
  ℕ, suc, ◌+◌, ◌<◌, ◌≤◌, String, Bool, true, false, ◌≡◌, refl, inl, inr, Option, none, some, List,
  [], ◌∷◌, count, one_if, arith, Option-cases, is_none, not,
}
use outbox_fanout.Prelude.Predicates.{All}
use outbox_fanout.Outcome.{Exc, Outcome, ok, raise}
use outbox_fanout.Config.{Config}
use outbox_fanout.Relay.Publisher.{Reply, accepted, refused}
use outbox_fanout.Settings

-- Config of botocore
pub record BotoConfig : Type 0 where
  pub max_attempts : ℕ
  pub mode : String
  pub connect_timeout : ℕ
  pub read_timeout : ℕ

-- The arguments of `boto3.client` and of `redis.Redis.from_url`.
pub data Options : Type 0 where
  aws_client :
      (service endpoint_url access_key_id secret_access_key region : String) → BotoConfig → Options
  redis_client :
      (url : String) (decode_responses : Bool)
      (connect_timeout socket_timeout health_check_interval : ℕ)
      → Options

-- _BOTO_CONFIG
abbrev pub boto_config : BotoConfig
boto_config = record { max_attempts = 3; mode = "standard"; connect_timeout = 5; read_timeout = 10 }

module _ (c : Config) where
  -- _SQS_CONFIG
  abbrev pub sqs_config : BotoConfig
  sqs_config = record boto_config { read_timeout = c.sqs_wait_time_seconds + 10 }

abbrev pub aws_options : String → Settings.Aws → BotoConfig → Options
aws_options service s config =
    aws_client service s.aws_endpoint_url s.aws_access_key_id s.aws_secret_access_key s.aws_region
      config

abbrev pub redis_options : Settings.Redis → Options
redis_options s = redis_client s.redis_url true 5 5 30

-- What a process has built: each client is told by the number of the call that built it. `built` has
-- the options of every client built, the latest first.
pub record Clients : Type 0 where
  pub sns : Option ℕ
  pub sqs : Option ℕ
  pub redis : Option ℕ
  pub built : List Options
  pub tick : ℕ

abbrev pub Step : Type 0
Step = Clients → Outcome ℕ × Clients

-- `none` is success.
abbrev pub Library : Type 0
Library = ℕ → Options → Option Exc

pub data Getter : Type 0 where
  get_sns : Getter
  get_sqs : Getter
  get_redis : Getter

module _ (library : Library) (c : Config) (aws : Settings.Aws) (redis : Settings.Redis) where
  -- A call of a constructor.
  abbrev pub build : Options → Step
  build options k = elim (library k.tick options) [
    | none ↦ (ok k.tick, record k { built = options ∷ k.built; tick = suc k.tick })
    | some e ↦ (raise e, record k { tick = suc k.tick })
  ]

  abbrev pub kept : Outcome ℕ → Option ℕ
  kept (ok number) = some number
  kept _ = none

  -- sns
  unfoldable pub sns : Step
  sns k = elim k.sns [
    | some number ↦ (ok number, k)
    | none ↦
        let (o, k') = build (aws_options "sns" aws boto_config) k in (o, record k' { sns = kept o })
  ]

  -- sqs
  unfoldable pub sqs : Step
  sqs k = elim k.sqs [
    | some number ↦ (ok number, k)
    | none ↦
        let (o, k') = build (aws_options "sqs" aws (sqs_config c)) k in
        (o, record k' { sqs = kept o })
  ]

  -- client
  unfoldable pub client : Step
  client k = elim k.redis [
    | some number ↦ (ok number, k)
    | none ↦ let (o, k') = build (redis_options redis) k in (o, record k' { redis = kept o })
  ]

  abbrev pub get : Getter → Step
  get get_sns = sns
  get get_sqs = sqs
  get get_redis = client

  -- Any number of calls, in any order.
  unfoldable pub gets : List Getter → Clients → Clients
  gets [] k = k
  gets (g ∷ gs) k = gets gs (get g k).1
