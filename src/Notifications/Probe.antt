-- ===== src/Notifications/Probe.antt =====
-- The boot probe of notifications/main.py.
use outbox_fanout.Prelude.{
  ℕ, zero, suc, ◌+◌, ◌≤◌, ◌<◌, true, ◌≡◌, ◌≢◌, subst, inl, inr, none, arith, Option-cases,
}
use outbox_fanout.Notifications.{Redis, probe}

module _ {S : Type 0} (redis : Redis S) where
  -- One of so many pings is answered, with so many calls made before the first.
  abbrev pub Reached : ℕ → ℕ → Type 0
  Reached attempts tick = (n : ℕ) × (n < attempts) × (redis.ping_fault (tick + n) ≡ none)

  Reached-suc : (attempts tick : ℕ) → Reached attempts (suc tick) → Reached (suc attempts) tick
  Reached-suc attempts tick (n, less, up) =
      (suc n, omega arith, subst (λ k. redis.ping_fault k ≡ none) (omega arith) up)

  Reached-later :
      (attempts tick : ℕ)
      → redis.ping_fault tick ≢ none
      → Reached (suc attempts) tick
      → Reached attempts (suc tick)
  Reached-later attempts tick down (zero, less, up) =
      absurd (down (subst (λ k. redis.ping_fault k ≡ none) (omega arith) up))
  Reached-later attempts tick down (suc n, less, up) =
      (n, omega arith, subst (λ k. redis.ping_fault k ≡ none) (omega arith) up)

  -- The probe returns True exactly if one of the pings that it may make is answered, and it makes no
  -- more of them than that.
  pub probe_lem :
      (attempts tick : ℕ)
      → (Reached attempts tick → (probe redis attempts tick).0 ≡ true)
        × ((probe redis attempts tick).0 ≡ true → Reached attempts tick)
        × ((probe redis attempts tick).1 ≤ attempts)
  unfolding probe
  probe_lem zero tick =
      ((λ r. absurd (omega (arith, r.1))), (λ h. absurd (ground arith)), omega arith)
  probe_lem (suc attempts) tick =
      let (found, reached, few) = probe_lem attempts (suc tick) in
      elim (Option-cases (redis.ping_fault tick)) [
        | inl up ↦ (
          (λ r. ground arith),
          (λ h. (0, omega arith, subst (λ k. redis.ping_fault k ≡ none) (omega arith) up)),
          ground arith,
        )
        | inr (e, down) ↦ (
          (λ r. ground (arith, found (Reached-later attempts tick (λ q. ground arith) r))),
          (λ h. Reached-suc attempts tick (reached (ground arith))),
          ground arith,
        )
      ]
