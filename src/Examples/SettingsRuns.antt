-- ===== src/Examples/SettingsRuns.antt =====
-- The settings of three environments.
use outbox_fanout.Prelude.{String, false, ◌≡◌, refl, ◌⊎◌, Option, none, some, str_eq, if◌then◌else◌}
use outbox_fanout.Outcome.{ok, raise, config_error}
use outbox_fanout.Settings.Parsers.{ℤ, pos, negsuc, Python, Environ}
use outbox_fanout.Settings.{Settings, load}
use outbox_fanout.Settings.Laws.{IsUsable, load-IsUsable}

abbrev int_of : String → Option ℤ
int_of s = if str_eq s "20" then some (pos 20) else if str_eq s "-1" then some (negsuc 0) else none

abbrev py : Python
py = record {
  int_of = int_of;
  str_int = λ n. "5432";
  strip = λ s. s;
  lower = λ s. s;
  upper = λ s. s;
}

-- A larger batch, a flag that is switched off, and an empty number.
abbrev tuned : Environ
tuned name =
    if str_eq name "PG_PASSWORD"
    then some "secret"
    else if str_eq name "RELAY_BATCH_SIZE"
    then some "20"
    else if str_eq name "CRASH_AFTER_PUBLISH"
    then some "0"
    else if str_eq name "PG_PORT"
    then some ""
    else none

abbrev misspelt : Environ
misspelt name = if str_eq name "LOG_TO_FILE" then some "nope" else tuned name

abbrev batch_size : Settings → ℤ
batch_size s = s.relaying.relay_batch_size

tuned-load :
    (s : Settings) × (load py tuned ≡ ok s)
    × (batch_size s ≡ pos 20)
    × (s.relaying.crash_after_publish ≡ false)
unfolding load
tuned-load = (_, refl, refl, refl)

misspelt-load : load py misspelt ≡ raise config_error
unfolding load
misspelt-load = refl

load-IsUsable_example :
    (IsUsable py tuned × (s : Settings) × (load py tuned ≡ ok s))
    ⊎ ((¬ IsUsable py tuned) × (load py tuned ≡ raise config_error))
load-IsUsable_example = load-IsUsable py tuned
