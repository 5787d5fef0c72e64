-- ===== src/Notifications/Expiry.antt =====
-- notifications/service.py with NOTIFY_DEDUP_TTL_SECONDS: deliveries of events to `handle`, and the
-- keys that Redis drops between them.
use outbox_fanout.Prelude.{
  ℕ, suc, ◌+◌, ◌≤◌, String, Bool, true, ◌≡◌, ◌≢◌, ap, inl, inr, List, [], ◌∷◌, arith, Bool-cases,
  str_eq, eq_iff, one_if, count,
}
use outbox_fanout.Json.{Value}
use outbox_fanout.Formats.{Formats}
use outbox_fanout.Config.{Config}
use outbox_fanout.Notifications.{Redis, Notifier, key, handle}
use outbox_fanout.Notifications.Laws.{IsLasting, passive, freed, notified, handle-Notified}

-- From `w`, some deliveries and expiries, in any order, that end in a notifier. The list has the keys
-- that expired, the latest first. An expiry takes no other key away.
pub data Lived {S : Type 0} (f : Formats) (redis : Redis S) (c : Config) (live : String → S → Bool)
    (w : Notifier S) : Notifier S → List String → Type 0 where
  begun : Lived f redis c live w w []
  delivered :
      (w' : Notifier S) (gone : List String) (event : Value)
      → Lived f redis c live w w' gone
      → Lived f redis c live w (handle f redis c event w').1 gone
  expired :
      (w' : Notifier S) (gone : List String) (k : String) (s : S)
      → ((j : String) → j ≢ k → live j w'.redis ≡ true → live j s ≡ true)
      → Lived f redis c live w w' gone
      → Lived f redis c live w (record w' { redis = s }) (k ∷ gone)

-- The emails of an order, and the times that its key expired.
abbrev pub emails : {S : Type 0} → String → Notifier S → ℕ
emails order_id w = count (str_eq order_id) w.sent

abbrev pub expiries : String → List String → ℕ
expiries order_id gone = count (str_eq (key order_id)) gone

module _ {S : Type 0} (f : Formats) (redis : Redis S) (c : Config) (live : String → S → Bool)
    (lasting : IsLasting redis live) (order_id : String) where
  -- Each email but the one whose key still lives has an expiry.
  abbrev IsPaid : Notifier S → List String → Type 0
  IsPaid w gone = emails order_id w ≤ expiries order_id gone + one_if (live (key order_id) w.redis)

  module _ (event : Value) (w : Notifier S) (gone : List String) (h : IsPaid w gone) where
    handle-IsPaid : IsPaid (handle f redis c event w).1 gone
    handle-IsPaid = elim (handle-Notified f redis c live lasting event w) [
      | passive _ same keeps ↦ elim (Bool-cases (live (key order_id) w.redis)) [
        | inl there ↦ ground (arith, h, same, keeps (key order_id) there)
        | inr missing ↦ ground (arith, h, same)
      ]
      | freed n _ _ _ _ free _ _ same keeps ↦ elim (Bool-cases (live (key order_id) w.redis)) [
        | inl there ↦ ground (
          arith,
          h,
          same,
          keeps (key order_id) (λ p. ground (arith, ap (λ k. live k w.redis) p, free, there)) there,
        )
        | inr missing ↦ ground (arith, h, same)
      ]
      | notified n _ _ free there _ more keeps ↦ elim (Bool-cases (str_eq order_id n.order_id)) [
        | inl ours ↦ ground (arith, h, more, ours, (eq_iff order_id n.order_id).0 ours, free, there)
        | inr not_ours ↦ elim (Bool-cases (live (key order_id) w.redis)) [
          | inl live_on ↦ ground (arith, h, more, not_ours, keeps (key order_id) live_on)
          | inr missing ↦ ground (arith, h, more, not_ours)
        ]
      ]
    ]

  module _ (w : Notifier S) (silent : w.sent ≡ []) where
    Lived-IsPaid :
        (w' : Notifier S) (gone : List String) → Lived f redis c live w w' gone → IsPaid w' gone
    Lived-IsPaid w' gone begun = rw silent (omega arith)
    Lived-IsPaid _ gone (delivered w' _ event past) =
        handle-IsPaid event w' gone (Lived-IsPaid w' gone past)
    Lived-IsPaid _ _ (expired w' gone k s stay past) = elim (Bool-cases (str_eq (key order_id) k)) [
      | inl ours ↦ ground (arith, Lived-IsPaid w' gone past, ours)
      | inr not_ours ↦ elim (Bool-cases (live (key order_id) w'.redis)) [
        | inl there ↦ ground (
          arith,
          Lived-IsPaid w' gone past,
          not_ours,
          stay (key order_id) (λ p. ground (arith, (eq_iff (key order_id) k).1 p)) there,
        )
        | inr missing ↦ ground (arith, Lived-IsPaid w' gone past, not_ours, missing)
      ]
    ]

    -- From a start without emails, an order has at most one email more than its key has expired,
    -- however deliveries and expiries alternate and whatever the events hold and Redis answers; and
    -- where it has as many emails as that, its key lives.
    pub emails-le :
        (w' : Notifier S) (gone : List String)
        → Lived f redis c live w w' gone
        → (emails order_id w' ≤ suc (expiries order_id gone))
          × (emails order_id w' ≡ suc (expiries order_id gone)
              → live (key order_id) w'.redis ≡ true)
    emails-le w' gone past =
        let h = Lived-IsPaid w' gone past in (ground (arith, h), λ p. ground (arith, h, p))
