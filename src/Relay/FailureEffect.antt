-- ===== src/Relay/FailureEffect.antt =====
-- What one call of `record_failure` can have done, on every branch.
use outbox_fanout.Prelude.{
  ℕ, suc, List, [], ◌∷◌, String, Bool, true, false, ◌≡◌, ◌≢◌, refl, ◌⊎◌, inl, inr, ◌||◌, none, some,
  arith, leb, select, map, Bool-cases, Option-cases, truncate, chars-truncate-le,
}
use outbox_fanout.Outcome.{Exc, Outcome, ok, raise, exit}
use outbox_fanout.Db.{World, Database}
use outbox_fanout.Formats.{Uuid, Timestamp}
use outbox_fanout.Tables.{Tables, fits}
use outbox_fanout.Config.{Config}
use outbox_fanout.Host.{Host}
use outbox_fanout.Relay.Publisher.{Publisher}
use outbox_fanout.Relay.Service.{
  update_row, has_id, bumped, parked, scalar_one, bump_attempts, record_failure,
}

-- The counter of the row as the UPDATE returns it.
abbrev pub returned : Uuid → String → Tables → Outcome ℕ
returned id reason t =
    scalar_one (map (λ e. e.attempts) (select (has_id id) (update_row id (bumped reason) t).outbox))

-- `kept`: the database refused, or no row has the key, and nothing is written. `counted`: the row
-- has one attempt more and the reason. `gave_up`: it is parked as well, which happens exactly when
-- the error is permanent or the attempts are used up.
pub data Recorded (db : Database) (c : Config) (id : Uuid) (reason : String) (permanent : Bool)
    (w : World Tables Publisher) (o : Outcome ℕ) (w' : World Tables Publisher) : Type 0 where
  kept :
      (e : Exc)
      → o ≡ raise e
      → ((n : ℕ) × (db.fault n ≡ some e)) ⊎ (returned id reason w.tables ≡ raise e)
      → w'.tables ≡ w.tables
      → Recorded db c id reason permanent w o w'
  counted :
      (n : ℕ)
      → o ≡ ok n
      → returned id reason w.tables ≡ ok n
      → (permanent || leb c.outbox_max_attempts n) ≡ false
      → w'.tables ≡ update_row id (bumped reason) w.tables
      → Recorded db c id reason permanent w o w'
  gave_up :
      (n : ℕ) (at : Timestamp)
      → o ≡ ok n
      → returned id reason w.tables ≡ ok n
      → (permanent || leb c.outbox_max_attempts n) ≡ true
      → w'.tables ≡ update_row id (parked at) (update_row id (bumped reason) w.tables)
      → Recorded db c id reason permanent w o w'

scalar_one-ne-exit : (ns : List ℕ) (code : ℕ) → scalar_one ns ≢ exit code
scalar_one-ne-exit [] code h = cc
scalar_one-ne-exit (n ∷ []) code h = cc
scalar_one-ne-exit (n ∷ m ∷ r) code h = cc

-- The cut reason fits into the column.
reason_fits : (s : String) → fits 500 (some (truncate 500 s)) ≡ true
reason_fits s = ground (arith, chars-truncate-le 500 s)

module _ (db : Database) (host : Host) (c : Config) (id : Uuid) (e : Exc) (permanent : Bool)
    (w : World Tables Publisher) where
  abbrev pub failed : Outcome ℕ × World Tables Publisher
  failed = record_failure db host c id e permanent w

  abbrev reason : String
  reason = truncate 500 (host.describe e)

  -- A failure is recorded in the database only.
  pub record_failure-process : failed.1.process ≡ w.process
  unfolding record_failure
  record_failure-process = ground arith

  bumps :
      bump_attempts id reason w.tables
      ≡ (returned id reason w.tables, update_row id (bumped reason) w.tables)
  unfolding bump_attempts
  bumps = rw (reason_fits (host.describe e)) refl

  module _ (calm : db.fault w.tick ≡ none) where
    parks :
        (n : ℕ)
        → returned id reason w.tables ≡ ok n
        → (permanent || leb c.outbox_max_attempts n) ≡ true
        → Recorded db c id reason permanent w failed.0 failed.1
    unfolding record_failure
    parks n r out = elim (Option-cases (db.fault (suc w.tick))) [
      | inr (e', refused) ↦
          kept e' (ground (arith, bumps)) (inl (_, refused)) (ground (arith, bumps))
      | inl calm' ↦ elim (Option-cases (db.fault (suc (suc w.tick)))) [
        | inr (e', refused) ↦
            kept e' (ground (arith, bumps)) (inl (_, refused)) (ground (arith, bumps))
        | inl commits ↦
            gave_up n (host.now (suc w.tick)) (ground (arith, bumps)) r out (ground (arith, bumps))
      ]
    ]

    stays :
        (n : ℕ)
        → returned id reason w.tables ≡ ok n
        → (permanent || leb c.outbox_max_attempts n) ≡ false
        → Recorded db c id reason permanent w failed.0 failed.1
    unfolding record_failure
    stays n r left = elim (Option-cases (db.fault (suc w.tick))) [
      | inr (e', refused) ↦
          kept e' (ground (arith, bumps)) (inl (_, refused)) (ground (arith, bumps))
      | inl commits ↦ counted n (ground (arith, bumps)) r left (ground (arith, bumps))
    ]

    returns :
        (o : Outcome ℕ)
        → returned id reason w.tables ≡ o
        → Recorded db c id reason permanent w failed.0 failed.1
    unfolding record_failure
    returns (ok n) r = elim (Bool-cases (permanent || leb c.outbox_max_attempts n)) [
      | inl out ↦ parks n r out
      | inr left ↦ stays n r left
    ]
    returns (raise e') r = kept e' (ground (arith, bumps)) (inr r) (ground (arith, bumps))
    returns (exit code) r = absurd (scalar_one-ne-exit _ code r)

  -- Every branch of `record_failure`, whatever the database answers.
  pub record_failure-Recorded : Recorded db c id reason permanent w failed.0 failed.1
  unfolding record_failure
  record_failure-Recorded = elim (Option-cases (db.fault w.tick)) [
    | inl calm ↦ returns calm (returned id reason w.tables) refl
    | inr (e', refused) ↦ kept e' (ground arith) (inl (_, refused)) (ground arith)
  ]
