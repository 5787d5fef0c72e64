-- ===== src/Clients/Once.antt =====
-- How often the clients of shared/aws.py and shared/redis_client.py are built, and with what timeouts.
use outbox_fanout.Prelude.{
  ℕ, ◌≤◌, String, Bool, true, false, ◌≡◌, refl, none, List, [], ◌∷◌, count, one_if, arith, is_none,
  not, str_eq, ◌&&◌, leb,
}
use outbox_fanout.Config.{Config}
use outbox_fanout.Settings
use outbox_fanout.Clients.{
  Options, aws_client, redis_client, Clients, Library, Getter, sns, sqs, client, get, gets,
}

abbrev pub is_aws : String → Options → Bool
is_aws name (aws_client service _ _ _ _ _) = str_eq service name
is_aws name (redis_client _ _ _ _ _) = false

abbrev pub is_redis : Options → Bool
is_redis (redis_client _ _ _ _ _) = true
is_redis (aws_client _ _ _ _ _ _) = false

-- A client of SQS that hangs up before SQS ends a long poll.
abbrev pub is_hasty : Config → Options → Bool
is_hasty c (aws_client service _ _ _ _ config) =
    str_eq service "sqs" && leb config.read_timeout c.sqs_wait_time_seconds
is_hasty c (redis_client _ _ _ _ _) = false

-- Each client was built once if it is cached, and else never.
pub record IsOnce (c : Config) (k : Clients) : Type 0 where
  pub sns : count (is_aws "sns") k.built ≡ one_if (not (is_none k.sns))
  pub sqs : count (is_aws "sqs") k.built ≡ one_if (not (is_none k.sqs))
  pub redis : count is_redis k.built ≡ one_if (not (is_none k.redis))
  pub patient : count (is_hasty c) k.built ≡ 0

abbrev pub unbuilt : ℕ → Clients
unbuilt tick = record { sns = none; sqs = none; redis = none; built = []; tick = tick }

module _ (library : Library) (c : Config) (aws : Settings.Aws) (redis : Settings.Redis) where
  get-IsOnce : (g : Getter) (k : Clients) → IsOnce c k → IsOnce c (get library c aws redis g k).1
  unfolding sns sqs client
  get-IsOnce g k h = record {
    sns = ground (arith, h.sns);
    sqs = ground (arith, h.sqs);
    redis = ground (arith, h.redis);
    patient = ground (arith, h.patient);
  }

  gets-IsOnce :
      (gs : List Getter) (k : Clients) → IsOnce c k → IsOnce c (gets library c aws redis gs k)
  unfolding gets
  gets-IsOnce [] k h = h
  gets-IsOnce (g ∷ gs) k h = gets-IsOnce gs _ (get-IsOnce g k h)

  -- Whatever clients a process asks for, in whatever order and however often, and whichever
  -- constructions fail: from a start with nothing built, it builds one client at most of each service,
  -- and none of SQS whose read timeout is not above the time that a long poll takes.
  pub gets-once :
      (gs : List Getter) (tick : ℕ)
      → (count (is_aws "sns") (gets library c aws redis gs (unbuilt tick)).built ≤ 1)
        × (count (is_aws "sqs") (gets library c aws redis gs (unbuilt tick)).built ≤ 1)
        × (count is_redis (gets library c aws redis gs (unbuilt tick)).built ≤ 1)
        × (count (is_hasty c) (gets library c aws redis gs (unbuilt tick)).built ≡ 0)
  gets-once gs tick =
      let h =
        gets-IsOnce gs (unbuilt tick)
          (record { sns = refl; sqs = refl; redis = refl; patient = refl }) in
      (ground (arith, h.sns), ground (arith, h.sqs), ground (arith, h.redis), h.patient)
