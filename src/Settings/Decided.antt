-- ===== src/Settings/Decided.antt =====
-- Which environments the readers of shared/config.py accept.
use outbox_fanout.Prelude.{
  String, Bool, true, false, ◌≡◌, ◌≢◌, refl, ◌⊎◌, inl, inr, Option, none, some, str_eq, eq_iff,
  Bool-cases, arith, if◌then◌else◌,
}
use outbox_fanout.Outcome.{Outcome, ok, raise, config_error}
use outbox_fanout.Settings.Parsers.{
  ℤ, Python, Environ, ◌>>=◌, present, require, get_int, get_bool, integer, is_on, is_off, boolean,
  unless_empty,
}

-- The variable is unset, empty, or its text is one of these.
abbrev pub Reads : (String → Type 0) → Option String → Type 0
Reads P none = Unit
Reads P (some raw) = (raw ≡ "") ⊎ P raw

abbrev pub IsInteger : Python → String → Type 0
IsInteger py raw = (n : ℤ) × (py.int_of raw ≡ some n)

abbrev pub IsBoolean : Python → String → Type 0
IsBoolean py raw =
    (is_on (py.lower (py.strip raw)) ≡ true) ⊎ (is_off (py.lower (py.strip raw)) ≡ true)

abbrev pub IsGiven : Option String → Type 0
IsGiven none = ⊥
IsGiven (some raw) = raw ≢ ""

-- It returns exactly where P holds, and raises a ConfigError everywhere else.
abbrev pub Decides : {A : Type 0} → Type 0 → Outcome A → Type 0
Decides {A} P m = (P × (a : A) × (m ≡ ok a)) ⊎ ((¬ P) × (m ≡ raise config_error))

pub ok-Decides : {A : Type 0} (a : A) → Decides Unit (ok a)
ok-Decides a = inl (tt, a, refl)

pub map-Decides :
    {A : Type 0} {P Q : Type 0} {m : Outcome A} → (P → Q) → (Q → P) → Decides P m → Decides Q m
map-Decides f g (inl (p, a, h)) = inl (f p, a, h)
map-Decides f g (inr (never, h)) = inr ((λ q. never (g q)), h)

pub bind-Decides :
    {A B : Type 0} {P Q : Type 0} (m : Outcome A) (k : A → Outcome B)
    → Decides P m
    → ((a : A) → Decides Q (k a))
    → Decides (P × Q) (m >>= k)
bind-Decides m k (inr (never, h)) g = inr ((λ p. never p.0), rw h refl)
bind-Decides m k (inl (p, a, h)) g = elim (g a) [
  | inl (q, b, t) ↦ inl ((p, q), b, rw h t)
  | inr (never, t) ↦ inr ((λ pq. never pq.1), rw h t)
]

integer-Decides : (o : Option ℤ) → Decides ((n : ℤ) × (o ≡ some n)) (integer o)
integer-Decides none = inr ((λ p. absurd (ground arith)), refl)
integer-Decides (some n) = inl ((n, refl), n, refl)

module _ (py : Python) where
  boolean-Decides : (raw : String) → Decides (IsBoolean py raw) (boolean (py.lower (py.strip raw)))
  boolean-Decides raw = split (is_on (py.lower (py.strip raw))) (is_off (py.lower (py.strip raw)))
    where
      split :
          (on off : Bool)
          → Decides
              ((on ≡ true) ⊎ (off ≡ true))
              (if on then ok true else if off then ok false else raise config_error)
      split true off = inl (inl refl, true, refl)
      split false true = inl (inr refl, false, refl)
      split false false = inr ((λ h. ground arith), refl)

  unless_empty-Decides :
      {A : Type 0} (P : String → Type 0) (default : A) (parse : String → Outcome A)
      → ((raw : String) → Decides (P raw) (parse raw))
      → (o : Option String) → Decides (Reads P o) (unless_empty default parse o)
  unless_empty-Decides P default parse h none = inl (tt, default, refl)
  unless_empty-Decides P default parse h (some raw) = elim (Bool-cases (str_eq raw "")) [
    | inl e ↦ inl (inl ((eq_iff raw "").0 e), default, rw e refl)
    | inr e ↦ elim (h raw) [
      | inl (p, a, t) ↦ inl (inr p, a, rw e t)
      | inr (never, t) ↦
          inr (
            (λ r. elim r [ inl q ↦ ground (arith, (eq_iff raw "").1 q) | inr p ↦ never p ]),
            rw e t,
          )
    ]
  ]

  module _ (env : Environ) where
    pub get_int-Decides :
        (name : String) (default : ℤ)
        → Decides (Reads (IsInteger py) (env name)) (get_int py env name default)
    unfolding get_int
    get_int-Decides name default =
        unless_empty-Decides (IsInteger py) default _ (λ raw. integer-Decides (py.int_of raw))
          (env name)

    pub get_bool-Decides :
        (name : String) (default : Bool)
        → Decides (Reads (IsBoolean py) (env name)) (get_bool py env name default)
    unfolding get_bool
    get_bool-Decides name default =
        unless_empty-Decides (IsBoolean py) default _ boolean-Decides (env name)

module _ (env : Environ) where
  pub require-Decides : (name : String) → Decides (IsGiven (env name)) (require env name)
  unfolding require
  require-Decides name = split (env name)
    where
      split : (o : Option String) → Decides (IsGiven o) (present o)
      split none = inr ((λ p. p), refl)
      split (some value) = elim (Bool-cases (str_eq value "")) [
        | inl e ↦ inr ((λ p. p ((eq_iff value "").0 e)), rw e refl)
        | inr e ↦ inl ((λ p. ground (arith, (eq_iff value "").1 p)), value, rw e refl)
      ]
