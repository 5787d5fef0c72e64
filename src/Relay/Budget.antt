-- ===== src/Relay/Budget.antt =====
-- The publish attempts that an outbox still has ahead of it, as a measure that every write lowers.
use outbox_fanout.Prelude.{
  ℕ, ◌+◌, ◌-◌, ◌*◌, ◌≤◌, ◌<◌, String, true, ◌≡◌, refl, inl, inr, List, [], ◌∷◌, arith, select,
  update, length, Bool-cases, ==_iff, update-update, if◌then◌else◌,
}
use outbox_fanout.Prelude.Predicates.{In}
use outbox_fanout.Formats.{Formats, Uuid, Timestamp}
use outbox_fanout.Tables.{OutboxEvent}
use outbox_fanout.Relay.Service.{is_pending, has_id, marked, bumped, parked}
use outbox_fanout.Relay.Induction.{Stable}

module _ (max : ℕ) where
  -- The attempts that a row has left.
  pub remaining : OutboxEvent → ℕ
  remaining e = if is_pending max e then max - e.attempts else 0

  pub budget : List OutboxEvent → ℕ
  budget [] = 0
  budget (e ∷ es) = remaining e + budget es

  remaining-le : (e : OutboxEvent) → remaining e ≤ max
  unfolding remaining
  remaining-le e = ground arith

  pub budget-le : (es : List OutboxEvent) → budget es ≤ max * length es
  unfolding budget
  budget-le [] = omega arith
  budget-le (e ∷ es) = grind (arith, remaining-le e, budget-le es)

  module _ (id : Uuid) (change : OutboxEvent → OutboxEvent)
      (lower : (e : OutboxEvent) → remaining (change e) ≤ remaining e) where
    pub budget-update-le :
        (es : List OutboxEvent) → budget (update (has_id id) change es) ≤ budget es
    unfolding budget
    budget-update-le [] = omega arith
    budget-update-le (e ∷ es) = ground (arith, lower e, budget-update-le es)

    -- A write that takes an attempt from a row lowers the whole.
    pub budget-update-lt :
        (e : OutboxEvent) (es : List OutboxEvent)
        → In e es
        → e.id ≡ id
        → remaining (change e) < remaining e
        → budget (update (has_id id) change es) < budget es
    unfolding budget
    budget-update-lt e [] m same less = absurd m
    budget-update-lt e (x ∷ es) (inl here) same less =
        rw (← here, (==_iff e.id id).1 same) (omega (arith, less, budget-update-le es))
    budget-update-lt e (x ∷ es) (inr there) same less =
        ground (arith, lower x, budget-update-lt e es there same less)

  module _ (e : OutboxEvent) where
    pub remaining-marked : (at : Timestamp) → remaining (marked at e) ≡ 0
    unfolding remaining
    remaining-marked at = refl

    pub remaining-bumped-le : (reason : String) → remaining (bumped reason e) ≤ remaining e
    unfolding remaining
    remaining-bumped-le reason = ground arith

    pub remaining-given_up :
        (reason : String) (at : Timestamp) → remaining (parked at (bumped reason e)) ≡ 0
    unfolding remaining
    remaining-given_up reason at = ground arith

    pub remaining-bumped-lt :
        (reason : String) → is_pending max e ≡ true → remaining (bumped reason e) < remaining e
    unfolding remaining
    remaining-bumped-lt reason h = ground arith

    pub remaining-pos : is_pending max e ≡ true → 0 < remaining e
    unfolding remaining
    remaining-pos h = ground arith

  pub budget-stable : (f : Formats) (n : ℕ) → Stable f max (λ t sent. budget t.outbox ≤ n)
  budget-stable f n = record {
    sends = λ id event arn t sent claims h. h;
    marks = λ id event arn at t sent claims h. omega (
      arith,
      budget-update-le id (marked at) (λ e. omega (arith, remaining-marked e at)) t.outbox,
    );
    bumps = λ id reason t sent short left h.
        omega
          (arith, budget-update-le id (bumped reason) (λ e. remaining-bumped-le e reason) t.outbox);
    gives_up = λ id reason at t sent short h.
        rw (update-update (has_id id) (bumped reason) (parked at) t.outbox (λ e. refl)) (
          omega (
            arith,
            budget-update-le id (λ e. parked at (bumped reason e))
                (λ e. omega (arith, remaining-given_up e reason at)) t.outbox,
          ));
  }

  -- With nothing left to attempt no row is due.
  pub none_pending : (es : List OutboxEvent) → budget es ≡ 0 → select (is_pending max) es ≡ []
  unfolding budget
  none_pending [] h = refl
  none_pending (e ∷ es) h = elim (Bool-cases (is_pending max e)) [
    | inl due ↦ absurd (omega (arith, remaining-pos e due))
    | inr done ↦ rw done (none_pending es (omega arith))
  ]

  -- With something left some row is due.
  pub some_pending :
      (es : List OutboxEvent) → 0 < budget es → 0 < length (select (is_pending max) es)
  unfolding budget remaining
  some_pending [] h = absurd (omega arith)
  some_pending (e ∷ es) h = elim (Bool-cases (is_pending max e)) [
    | inl due ↦ rw due (omega arith)
    | inr done ↦ rw done (some_pending es (omega (arith, rw done at h)))
  ]
