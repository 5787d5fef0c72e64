-- ===== src/Examples/Answering.antt =====
-- The journal answers every call, and shows at once what it was told.
use outbox_fanout.Prelude.{
  ◌≤◌, ◌+◌, length, if◌then◌else◌, String, true, false, not, ◌&&◌, ◌≡◌, ◌⊎◌, inl, inr, refl, sym,
  ap, ◌∙◌, none, some, List, [], ◌∷◌, any, str_eq, eq_iff, arith, Bool-cases,
}
use outbox_fanout.Relay.Publisher.{accepted}
use outbox_fanout.Cloud.{
  Attributes, Request, create_topic, create_queue, set_queue_attributes, subscribe,
  set_subscription_attributes,
}
use outbox_fanout.Cloud.Rerun.{differs}
use outbox_fanout.Cloud.Ensured.{IsAnswering, attribute, subscriptions}
use outbox_fanout.Examples.Journal.{
  same_attributes, in_force, reply, endpoints_of, policy_of, service,
}

listed :
    (topic endpoint : String) (journal : List Request)
    → in_force (subscribe topic endpoint) journal ≡ true
    → any (str_eq endpoint) (endpoints_of topic journal) ≡ true
listed topic endpoint [] h = h
listed topic endpoint (subscribe t e ∷ rs) h = ground (arith, h, listed topic endpoint rs)
listed topic endpoint (create_topic name ∷ rs) h = listed topic endpoint rs (ground arith)
listed topic endpoint (create_queue name ∷ rs) h = listed topic endpoint rs (ground arith)
listed topic endpoint (set_queue_attributes u kvs ∷ rs) h = listed topic endpoint rs (ground arith)
listed topic endpoint (set_subscription_attributes s k v ∷ rs) h =
    listed topic endpoint rs (ground arith)

-- The same attributes have the same value under a key.
same-attribute :
    (key : String) (new old : Attributes)
    → same_attributes new old ≡ true
    → attribute key new ≡ attribute key old
same-attribute key [] [] h = refl
same-attribute key (a ∷ new) (b ∷ old) h =
    ground (arith, same-attribute key new old, eq_iff a.0 b.0, eq_iff a.1 b.1)
same-attribute key [] (b ∷ old) h = absurd (ground arith)
same-attribute key (a ∷ new) [] h = absurd (ground arith)

-- Where no attribute differs, a key that has a value in both has the same.
one-differs :
    (a : String × String) (key text : String) (new : Attributes)
    → any (λ x. str_eq x.0 a.0 && not (str_eq x.1 a.1)) new ≡ false
    → key ≡ a.0
    → text ≡ a.1
    → (attribute key new ≡ none) ⊎ (attribute key new ≡ some text)
one-differs a key text [] h p q = inl refl
one-differs a key text (x ∷ new) h p q = elim (Bool-cases (str_eq key x.0)) [
  | inl here ↦
      let same_key = (eq_iff x.0 a.0).1 (sym ((eq_iff key x.0).0 here) ∙ p) in
      let same_value : str_eq x.1 a.1 ≡ true = ground (arith, h, same_key) in
      rw here (inr (ap some ((eq_iff x.1 a.1).0 same_value ∙ sym q)))
  | inr other ↦ rw other (one-differs a key text new (ground (arith, h)) p q)
]

differs-attribute :
    (key text : String) (new old : Attributes)
    → differs new old ≡ false
    → attribute key old ≡ some text
    → (attribute key new ≡ none) ⊎ (attribute key new ≡ some text)
differs-attribute key text new [] h p = absurd (ground arith)
differs-attribute key text new (b ∷ old) h p = elim (Bool-cases (str_eq key b.0)) [
  | inl here ↦
      one-differs b key text new (ground (arith, h)) ((eq_iff key b.0).0 here)
        (ground (arith, rw here at p))
  | inr other ↦ differs-attribute key text new old (ground (arith, h)) (rw other at p)
]

redriven :
    (u : String) (kvs : Attributes) (text : String) (journal : List Request)
    → in_force (set_queue_attributes u kvs) journal ≡ true
    → attribute "RedrivePolicy" kvs ≡ some text
    → policy_of u journal ≡ some text
redriven u kvs text [] h p = absurd (ground arith)
redriven u kvs text (create_topic name ∷ rs) h p = redriven u kvs text rs (ground arith) p
redriven u kvs text (create_queue name ∷ rs) h p = redriven u kvs text rs (ground arith) p
redriven u kvs text (subscribe t e ∷ rs) h p = redriven u kvs text rs (ground arith) p
redriven u kvs text (set_subscription_attributes s k v ∷ rs) h p =
    redriven u kvs text rs (ground arith) p
redriven u kvs text (set_queue_attributes v new ∷ rs) h p = elim (Bool-cases (str_eq u v)) [
  | inr elsewhere ↦ rw elsewhere (redriven u kvs text rs (ground (arith, elsewhere)) p)
  | inl here ↦ elim (Bool-cases (same_attributes kvs new)) [
    | inl equal ↦ ground (arith, here, same-attribute "RedrivePolicy" kvs new equal, p)
    | inr unequal ↦
        let back = (eq_iff v u).1 (sym ((eq_iff u v).0 here)) in
        let clear : differs new kvs ≡ false = ground (arith, h, unequal, back) in
        let held : in_force (set_queue_attributes u kvs) rs ≡ true = ground (arith, h, unequal) in
        ground (
          arith,
          here,
          differs-attribute "RedrivePolicy" text new kvs clear p,
          redriven u kvs text rs held p,
        )
  ]
]

-- A request adds a subscription at most, and only if it subscribes.
written :
    (r : Request) (x topic : String) (s : List Request)
    → length (endpoints_of topic (r ∷ s))
      ≤ length (endpoints_of topic s) + subscriptions ((r, x) ∷ [])
written (subscribe t e) x topic s = ground arith
written (create_topic name) x topic s = omega arith
written (create_queue name) x topic s = omega arith
written (set_queue_attributes u kvs) x topic s = omega arith
written (set_subscription_attributes a k v) x topic s = omega arith

added :
    (r : Request) (x topic : String) (s : List Request)
    → length (endpoints_of topic (if in_force r s then s else r ∷ s))
      ≤ length (endpoints_of topic s) + subscriptions ((r, x) ∷ [])
added r x topic s = elim (Bool-cases (in_force r s)) [
  | inl h ↦ rw h (omega arith)
  | inr h ↦ rw h (written r x topic s)
]

pub journal-IsAnswering :
    IsAnswering service
      (λ r x s. (in_force r s ≡ true) × (x ≡ reply r))
      (λ name. name)
      (λ name. name)
journal-IsAnswering = record {
  takes = λ n r s. (reply r, refl);
  queue-url = λ n name s x p. ground arith;
  one-queue = λ a b p. p;
  tells-url = λ n name s h. rw h.0 refl;
  tells-arn = λ n name s h. refl;
  subscribed = endpoints_of;
  subscribes = λ topic endpoint x s k. listed topic endpoint s k.0;
  adds = λ n r x topic s. added r x topic s;
  tells-subscriptions = λ n name topic s h. refl;
  tells-redrive = λ n u kvs x text s h p. ap accepted (redriven u kvs text s h.0 p);
}

-- A journal of nothing has no subscription.
pub journal_room : (topic : String) → length (journal-IsAnswering.subscribed topic []) ≤ 97
unfolding journal-IsAnswering
journal_room topic = omega arith
