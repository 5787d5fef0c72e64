-- ===== src/Log/Scope.antt =====
-- What a correlation scope leaves behind, and what the lines in it carry.
use outbox_fanout.Prelude.{
  ℕ, String, ◌≡◌, refl, sym, ap, ◌∙◌, subst, ◌⊎◌, inl, inr, Option, none, some, List, [], ◌∷◌, ◌++◌,
  map, append_assoc, str_eq, leb, if_cases,
}
use outbox_fanout.Prelude.Predicates.{All, All-append}
use outbox_fanout.Outcome.{Outcome, ok, raise, exit}
use outbox_fanout.Log.{
  Name, Handler, Line, Logging, Io, line, reached, threshold, written, emit, scope_id, reset,
  correlation_scope,
}

-- The process died in it.
abbrev pub IsExit : {A : Type 0} → Outcome A → Type 0
IsExit {A} o = (n : ℕ) × (o ≡ exit n)

-- From lines `before`, code that wrote only lines of this id, and left the process's id as it was
-- unless the process died.
pub record IsTagged {A : Type 0} (id : String) (outer : String) (before : List Line)
    (out : Outcome A × Logging) : Type 0 where
  pub added : List Line
  pub lines : out.1.lines ≡ added ++ before
  pub tagged : All (λ l. l.cid ≡ id) added
  pub restored : IsExit out.0 ⊎ (out.1.id ≡ outer)

line-cid :
    (s : Logging) (name : Name) (level : ℕ) (message : List String) (hs : List Handler)
    → All (λ l. l.cid ≡ s.id) (map (line s name level message) hs)
line-cid s name level message [] = tt
line-cid s name level message (h ∷ hs) = (refl, line-cid s name level message hs)

written-cid :
    (s : Logging) (name : Name) (level : ℕ) (message : List String)
    → All (λ l. l.cid ≡ s.id) (written name level message s)
written-cid s name level message =
    if_cases (All (λ l. l.cid ≡ s.id)) (leb (threshold s.loggers name) level) _ []
      (line-cid s name level message (reached s.loggers name)) tt

-- One record, and a return.
pub emit-IsTagged :
    {A : Type 0} (name : Name) (level : ℕ) (message : List String) (o : Outcome A) (s : Logging)
    → IsTagged s.id s.id s.lines (o, emit name level message s)
unfolding emit
emit-IsTagged name level message o s = record {
  added = written name level message s;
  lines = refl;
  tagged = written-cid s name level message;
  restored = inr refl;
}

-- Code of the id behind lines of the id.
pub IsTagged-behind :
    {A B : Type 0} (id outer : String) (before : List Line) (mid : Outcome B × Logging)
    (out : Outcome A × Logging)
    → IsTagged id outer before mid
    → IsTagged id outer mid.1.lines out
    → IsTagged id outer before out
IsTagged-behind id outer before mid out t u = record {
  added = u.added ++ t.added;
  lines = u.lines ∙ ap (λ ls. u.added ++ ls) t.lines ∙ sym (append_assoc u.added t.added before);
  tagged = All-append (λ l. l.cid ≡ id) u.added t.added u.tagged t.tagged;
  restored = u.restored;
}

scope_id-lines :
    (io : Io) (value : Option String) (s : Logging) → (scope_id io value s).1.lines ≡ s.lines
scope_id-lines io none s = refl
scope_id-lines io (some v) s =
    if_cases {A = String × Logging} (λ o. o.1.lines ≡ s.lines) (str_eq v "") _ _ refl refl

reset-IsTagged :
    {A : Type 0} (id outer : String) (before : List Line) (out : Outcome A × Logging)
    → IsTagged id id before out
    → IsTagged id outer before (reset outer out)
reset-IsTagged id outer before (ok a, s) t = record {
  added = t.added;
  lines = t.lines;
  tagged = t.tagged;
  restored = inr refl;
}
reset-IsTagged id outer before (raise e, s) t = record {
  added = t.added;
  lines = t.lines;
  tagged = t.tagged;
  restored = inr refl;
}
reset-IsTagged id outer before (exit n, s) t = record {
  added = t.added;
  lines = t.lines;
  tagged = t.tagged;
  restored = inl (n, refl);
}

-- A scope around code that writes lines only of the process's id and keeps that: every line has the
-- id of the scope, and behind it, also where it ends by an exception, the process has its id from
-- before.
pub correlation_scope-IsTagged :
    {A : Type 0} (io : Io) (value : Option String) (body : String → Logging → Outcome A × Logging)
    (s : Logging)
    → ((t : Logging)
        → t.id ≡ (scope_id io value s).0
        → IsTagged t.id t.id t.lines (body (scope_id io value s).0 t))
    → IsTagged (scope_id io value s).0 s.id s.lines (correlation_scope io value body s)
unfolding correlation_scope
correlation_scope-IsTagged {A} io value body s h =
    let inner = record (scope_id io value s).1 { id = (scope_id io value s).0 } in
    reset-IsTagged _ s.id s.lines _ (
      subst (λ ls. IsTagged {A = A} inner.id inner.id ls (body (scope_id io value s).0 inner))
        (scope_id-lines io value s) (h inner refl))
