-- ===== src/Settings/Parsers.antt =====
-- shared/config.py: `_get`, `_require`, `_get_int` and `_get_bool`.
-- Python's `int`, `str` and the methods of its texts are parameters. An integer has no bound.
use outbox_fanout.Prelude.{
  ℕ, String, Bool, true, false, ◌||◌, Option, none, some, str_eq, if◌then◌else◌,
}
use outbox_fanout.Outcome.{Outcome, ok, raise, exit, config_error}

pub data ℤ : Type 0 where
  pos : ℕ → ℤ
  -- negsuc n is -(n + 1)
  negsuc : ℕ → ℤ

pub record Python : Type 0 where
  -- `none` is a ValueError
  pub int_of : String → Option ℤ
  pub str_int : ℤ → String
  pub strip : String → String
  pub lower : String → String
  pub upper : String → String

-- os.environ
abbrev pub Environ : Type 0
Environ = String → Option String

infixl 5 ◌>>=◌
abbrev pub ◌>>=◌ : {A B : Type 0} → Outcome A → (A → Outcome B) → Outcome B
ok a >>= f = f a
raise e >>= f = raise e
exit n >>= f = exit n

abbrev pub or_default : {A : Type 0} → A → Option A → A
or_default d none = d
or_default d (some a) = a

abbrev pub present : Option String → Outcome String
present none = raise config_error
present (some value) = if str_eq value "" then raise config_error else ok value

-- `int(raw)`, and ConfigError for its ValueError
abbrev pub integer : Option ℤ → Outcome ℤ
integer none = raise config_error
integer (some n) = ok n

-- Unset and empty give the default.
abbrev pub unless_empty : {A : Type 0} → A → (String → Outcome A) → Option String → Outcome A
unless_empty default parse none = ok default
unless_empty default parse (some raw) =
    let parsed = parse raw in if str_eq raw "" then ok default else parsed

abbrev pub is_on : String → Bool
is_on s = str_eq s "1" || (str_eq s "true" || (str_eq s "yes" || str_eq s "on"))

abbrev pub is_off : String → Bool
is_off s = str_eq s "0" || (str_eq s "false" || (str_eq s "no" || str_eq s "off"))

abbrev pub boolean : String → Outcome Bool
boolean s = if is_on s then ok true else if is_off s then ok false else raise config_error

module _ (env : Environ) where
  -- _get: an empty value counts
  unfoldable pub get : String → String → String
  get name default = or_default default (env name)

  -- _require
  unfoldable pub require : String → Outcome String
  require name = present (env name)

module _ (py : Python) (env : Environ) where
  -- _get_int
  unfoldable pub get_int : String → ℤ → Outcome ℤ
  get_int name default = unless_empty default (λ raw. integer (py.int_of raw)) (env name)

  -- _get_bool
  unfoldable pub get_bool : String → Bool → Outcome Bool
  get_bool name default = unless_empty default (λ raw. boolean (py.lower (py.strip raw))) (env name)
