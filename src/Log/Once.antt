-- ===== src/Log/Once.antt =====
-- The handlers of a process behind setup of shared/log.py.
use outbox_fanout.Prelude.{
  ℕ, any, String, Bool, true, false, ◌≡◌, refl, sym, ap, if_true, if_false, subst, ◌≤◌, ◌∙◌, ◌⊎◌,
  inl, inr, Option, none, some, List, [], ◌∷◌, map, leb, if◌then◌else◌, Bool-cases, arith,
}
use outbox_fanout.Log.{
  Name, Handler, console, file, Logger, Logging, Io, same_name, reached, threshold, line, written,
  emit, modify, warning,
}
use outbox_fanout.Log.Setup.{
  LogConfig, set_level, route_through_ours, announce, install, quiet_all, route_all, noisy_names,
  uvicorn_names, configure, setup,
}

abbrev is_uvicorn : Name → Bool
is_uvicorn name = any (same_name name) uvicorn_names

-- No logger from this one up to the root keeps records from the root, or writes them itself, but for
-- the two of uvicorn's that are routed through the root.
abbrev pub IsPlain : (Name → Logger) → Name → Type 0
IsPlain loggers [] = Unit
IsPlain loggers (part ∷ parent) =
    ((is_uvicorn (part ∷ parent) ≡ true)
      ⊎ (((loggers (part ∷ parent)).handlers ≡ []) × ((loggers (part ∷ parent)).propagate ≡ true)))
    × IsPlain loggers parent

-- A logger whose records the handlers above write, and no other.
abbrev IsOpen : Logger → Type 0
IsOpen l = (l.handlers ≡ []) × (l.propagate ≡ true)

abbrev IsOpenUp : (Name → Logger) → Name → Type 0
IsOpenUp loggers [] = Unit
IsOpenUp loggers (part ∷ parent) = IsOpen (loggers (part ∷ parent)) × IsOpenUp loggers parent

reached_open :
    (loggers : Name → Logger) (name : Name)
    → IsOpenUp loggers name
    → reached loggers name ≡ (loggers []).handlers
reached_open loggers [] h = refl
reached_open loggers (part ∷ parent) ((e, p), h) = rw (p, e) (reached_open loggers parent h)

module _ (at : Name) (loggers : Name → Logger) (name : Name) where
  -- A level is no matter of handlers.
  level-IsOpen :
      (level : ℕ)
      → IsOpen (loggers name)
      → IsOpen (modify at (λ l. record l { level = some level }) loggers name)
  level-IsOpen level h = split (same_name name at)
    where
      split :
          (b : Bool)
          → IsOpen (if b then record (loggers name) { level = some level } else loggers name)
      split true = h
      split false = h

  route-IsOpen :
      (same_name name at ≡ true) ⊎ IsOpen (loggers name)
      → IsOpen (modify at (λ l. record l { handlers = []; propagate = true }) loggers name)
  route-IsOpen h = split (same_name name at) h
    where
      split :
          (b : Bool)
          → (b ≡ true) ⊎ IsOpen (loggers name)
          → IsOpen (
              if b then record (loggers name) { handlers = []; propagate = true } else loggers name)
      split true h = (refl, refl)
      split false (inl h) = absurd (ground arith)
      split false (inr h) = h

module _ (name : Name) where
  quiet_all-IsOpen :
      (names : List Name) (s : Logging)
      → IsOpen (s.loggers name)
      → IsOpen ((quiet_all names s).loggers name)
  quiet_all-IsOpen [] s h = h
  quiet_all-IsOpen (at ∷ names) s h =
      quiet_all-IsOpen names (set_level at warning s) (level-IsOpen at s.loggers name warning h)

  route_all-IsOpen :
      (names : List Name) (s : Logging)
      → (any (same_name name) names ≡ true) ⊎ IsOpen (s.loggers name)
      → IsOpen ((route_all names s).loggers name)
  route_all-IsOpen [] s (inr h) = h
  route_all-IsOpen [] s (inl h) = absurd (ground arith)
  route_all-IsOpen (at ∷ names) s h =
      route_all-IsOpen names (route_through_ours at s)
        (or_in (same_name name at) (any (same_name name) names) h (route-IsOpen at s.loggers name))
    where
      or_in :
          {P Q : Type 0} (b rest : Bool)
          → ((if b then true else rest) ≡ true) ⊎ P
          → ((b ≡ true) ⊎ P → Q)
          → (rest ≡ true) ⊎ Q
      or_in true rest h f = inr (f (inl refl))
      or_in false rest (inl h) f = inl h
      or_in false rest (inr h) f = inr (f (inr h))

module _ (io : Io) (c : LogConfig) (service : String) where
  -- Where a record is written to: the console, and the file if it is wanted and can be opened.
  abbrev pub targets : ℕ → List Handler
  targets tick =
      console service
      ∷ (if c.log_to_file
          then (if io.opens tick service then file c.log_dir service ∷ [] else [])
          else [])

  module _ (s : Logging) where
    install-targets : ((install io c service s).1.loggers []).handlers ≡ targets s.tick
    unfolding install
    install-targets = elim (Bool-cases c.log_to_file) [
      | inl e ↦ elim (Bool-cases (io.opens s.tick service)) [
        | inl o ↦ rw (e, o) refl
        | inr o ↦ rw (e, o) refl
      ]
      | inr e ↦ rw e refl
    ]

    install-apart :
        (part : String) (parent : Name)
        → (install io c service s).1.loggers (part ∷ parent) ≡ s.loggers (part ∷ parent)
    unfolding install
    install-apart part parent = ground arith

    IsPlain-open :
        (name : Name) (t : Logging)
        → ((part : String) (parent : Name) → t.loggers (part ∷ parent) ≡ s.loggers (part ∷ parent))
        → IsPlain s.loggers name
        → IsOpenUp (route_all uvicorn_names (quiet_all noisy_names t)).loggers name
    IsPlain-open [] t same h = tt
    IsPlain-open (part ∷ parent) t same (h, hs) = (
      route_all-IsOpen (part ∷ parent) uvicorn_names (quiet_all noisy_names t) (or_open h),
      IsPlain-open parent t same hs,
    )
      where
        or_open :
            (is_uvicorn (part ∷ parent) ≡ true) ⊎ IsOpen (s.loggers (part ∷ parent))
            → (is_uvicorn (part ∷ parent) ≡ true)
              ⊎ IsOpen ((quiet_all noisy_names t).loggers (part ∷ parent))
        or_open (inl u) = inl u
        or_open (inr o) = inr (
            quiet_all-IsOpen (part ∷ parent) noisy_names t
              (subst IsOpen (sym (same part parent)) o))

    announce-loggers :
        (h : Option Handler) (t : Logging) → (announce io c h service t).loggers ≡ t.loggers
    unfolding emit
    announce-loggers none t = refl
    announce-loggers (some h) t = refl

    root-handlers :
        (t : Logging)
        → ((route_all uvicorn_names (quiet_all noisy_names t)).loggers []).handlers
          ≡ (t.loggers []).handlers
    root-handlers t = refl

    configure-reached :
        (name : Name)
        → IsPlain s.loggers name
        → reached (configure io c service s).loggers name ≡ targets s.tick
    unfolding configure
    configure-reached name h =
        let added = (install io c service s).1 in
        ap (λ l. reached l name) (announce-loggers (install io c service s).0 _)
        ∙ reached_open (route_all uvicorn_names (quiet_all noisy_names added)).loggers name
            (IsPlain-open name added install-apart h)
        ∙ root-handlers added
        ∙ install-targets

    configure-configured : (configure io c service s).configured ≡ true
    unfolding configure emit
    configure-configured = split (install io c service s).0
      where
        split :
            (h : Option Handler)
            → (announce io c h service
                (record (route_all uvicorn_names
                  (quiet_all noisy_names (install io c service s).1)) {
                    configured = true;
                  })).configured
              ≡ true
        split none = refl
        split (some h) = refl

-- Later set-ups, of any services.
abbrev pub setup_all : Io → LogConfig → List String → Logging → Logging
setup_all io c [] s = s
setup_all io c (service ∷ services) s = setup_all io c services (setup io c service s)

setup_all-configured :
    (io : Io) (c : LogConfig) (services : List String) (s : Logging)
    → s.configured ≡ true
    → setup_all io c services s ≡ s
unfolding setup
setup_all-configured io c [] s h = refl
setup_all-configured io c (service ∷ services) s h =
    ap (setup_all io c services) (if_true s.configured s _ h)
    ∙ setup_all-configured io c services s h

-- One set-up counts.
setup_all-configure :
    (io : Io) (c : LogConfig) (service : String) (services : List String) (s : Logging)
    → s.configured ≡ false
    → setup_all io c (service ∷ services) s ≡ configure io c service s
unfolding setup
setup_all-configure io c service services s fresh =
    ap (setup_all io c services) (if_false s.configured s _ fresh)
    ∙ setup_all-configured io c services (configure io c service s)
        (configure-configured io c service s)

handlers_of-line :
    (s : Logging) (name : Name) (level : ℕ) (message : List String) (hs : List Handler)
    → map (λ l. l.handler) (map (line s name level message) hs) ≡ hs
handlers_of-line s name level message [] = refl
handlers_of-line s name level message (h ∷ hs) =
    ap (λ t. h ∷ t) (handlers_of-line s name level message hs)

handlers_of-written :
    (s : Logging) (name : Name) (level : ℕ) (message : List String)
    → threshold s.loggers name ≤ level
    → map (λ l. l.handler) (written name level message s) ≡ reached s.loggers name
handlers_of-written s name level message h =
    ap (map (λ l. l.handler)) (if_true (leb (threshold s.loggers name) level) _ _ (ground arith))
    ∙ handlers_of-line s name level message (reached s.loggers name)

-- Once a process that was not configured has set up logging, in however many calls, each record at
-- or above its logger's level is written exactly once to the console and once to the log file, if
-- that is wanted and could be opened: so also a record of a library's logger, and of the loggers of
-- uvicorn, whatever handlers they and the root logger had before. The condition is that no other
-- logger above it has handlers of its own or keeps its records from the root.
pub setup-once :
    (io : Io) (c : LogConfig) (service : String) (services : List String) (s : Logging)
    (name : Name) (level : ℕ) (message : List String)
    → s.configured ≡ false
    → IsPlain s.loggers name
    → threshold (setup_all io c (service ∷ services) s).loggers name ≤ level
    → map (λ l. l.handler) (written name level message (setup_all io c (service ∷ services) s))
      ≡ targets io c service s.tick
setup-once io c service services s name level message fresh plain enabled =
    handlers_of-written (setup_all io c (service ∷ services) s) name level message enabled
    ∙ ap (λ t. reached t.loggers name) (setup_all-configure io c service services s fresh)
    ∙ configure-reached io c service s name plain
