-- ===== src/Order/Tracing.antt =====
-- The id that the correlation middleware gives to a request's lines and to its response.
use outbox_fanout.Prelude.{
  ℕ, String, ◌≡◌, refl, sym, ap, ◌∙◌, subst, inl, inr, some, List, [], ◌∷◌, if_cases, arith,
}
use outbox_fanout.Outcome.{Outcome, ok, raise, exit}
use outbox_fanout.Log.{Logging, Io, Line, emit, info, error, scope_id, reset}
use outbox_fanout.Log.Scope.{
  IsExit, IsTagged, emit-IsTagged, IsTagged-behind, correlation_scope-IsTagged,
}
use outbox_fanout.Order.Middleware.{
  HttpRequest, HttpResponse, Clock, Application, is_quiet, opening, ticked, closing, handled,
  correlation_middleware,
}

-- The response with the id as its X-Request-ID; an exception and an exit are as they were.
abbrev pub echo : String → Outcome HttpResponse → Outcome HttpResponse
echo cid (ok response) = ok (record response { request_id = some cid })
echo cid (raise e) = raise e
echo cid (exit n) = exit n

-- One more line of the id.
logged-IsTagged :
    {A : Type 0} (id : String) (before : List Line) (level : ℕ) (message : List String)
    (o o' : Outcome A) (s : Logging)
    → (¬ IsExit o)
    → IsTagged id id before (o, s)
    → IsTagged id id before (o', emit ("request" ∷ []) level message (ticked s))
logged-IsTagged id before level message o o' s alive t = elim t.restored [
  | inl dead ↦ absurd (alive dead)
  | inr same ↦
      IsTagged-behind id id before (o, s) _ t
        (subst (λ i. IsTagged i i s.lines (o', emit ("request" ∷ []) level message (ticked s))) same
          (emit-IsTagged ("request" ∷ []) level message o' (ticked s)))
]

module _ (clock : Clock) (request : HttpRequest) where
  opening-IsTagged :
      {A : Type 0} (o : Outcome A) (s : Logging)
      → IsTagged s.id s.id s.lines (o, opening clock request s)
  unfolding opening
  opening-IsTagged {A} o s =
      if_cases (λ t. IsTagged {A = A} s.id s.id s.lines (o, t)) (is_quiet request) s _
        (record { added = []; lines = refl; tagged = tt; restored = inr refl })
        (emit-IsTagged ("request" ∷ []) info ("┌─ %s %s" ∷ request.method ∷ request.path ∷ []) o s)

  opening-id : (s : Logging) → (opening clock request s).id ≡ s.id
  unfolding opening emit
  opening-id s = if_cases (λ t. t.id ≡ s.id) (is_quiet request) s _ refl refl

  closing-IsTagged :
      (started : ℕ) (id : String) (before : List Line) (out : Outcome HttpResponse × Logging)
      → IsTagged id id before out
      → IsTagged id id before (closing clock request started id out)
  unfolding closing
  closing-IsTagged started id before (exit n, s) t = t
  closing-IsTagged started id before (raise e, s) t =
      logged-IsTagged id before error _ (raise e) (raise e) s (λ h. absurd (ground arith)) t
  closing-IsTagged started id before (ok response, s) t =
      if_cases (λ u. IsTagged id id before (ok (record response { request_id = some id }), u))
        (is_quiet request) (ticked s) _
        (record {
          added = t.added;
          lines = t.lines;
          tagged = t.tagged;
          restored = elim t.restored [ inl dead ↦ absurd (ground arith) | inr same ↦ inr same ];
        })
        (logged-IsTagged id before info _ (ok response) _ s (λ h. absurd (ground arith)) t)

  closing-echo :
      (started : ℕ) (id : String) (out : Outcome HttpResponse × Logging)
      → (closing clock request started id out).0 ≡ echo id out.0
  unfolding closing
  closing-echo started id (ok r, s) = refl
  closing-echo started id (raise e, s) = refl
  closing-echo started id (exit n, s) = refl

reset-outcome :
    {A : Type 0} (outer : String) (out : Outcome A × Logging) → (reset outer out).0 ≡ out.0
reset-outcome outer (ok a, s) = refl
reset-outcome outer (raise e, s) = refl
reset-outcome outer (exit n, s) = refl

module _ (io : Io) (clock : Clock) (call_next : Application) (request : HttpRequest) where
  handled-IsTagged :
      (t : Logging)
      → ((u : Logging) → IsTagged u.id u.id u.lines (call_next request u))
      → IsTagged t.id t.id t.lines (handled io clock call_next request t.id t)
  handled-IsTagged t next =
      let opened = ticked (opening clock request t) in
      closing-IsTagged clock request (clock.perf_counter (opening clock request t).tick) t.id
        t.lines (call_next request opened)
        (IsTagged-behind t.id t.id t.lines (ok tt, opening clock request t)
          (call_next request opened) (opening-IsTagged clock request (ok tt) t)
          (subst (λ i. IsTagged i i (opening clock request t).lines (call_next request opened))
            (opening-id clock request t) (next opened)))

  -- A request's lines carry one id: the X-Request-ID that the caller sent, or a new one where that is
  -- absent or empty. The application runs with that id, its response carries it as X-Request-ID, its
  -- exception is passed on, and unless the process died it has its own id again. The condition is that
  -- the application writes only lines of the id that it runs with, and leaves that as it is.
  pub correlation_middleware-IsTagged :
      (s : Logging)
      → ((t : Logging) → IsTagged t.id t.id t.lines (call_next request t))
      → IsTagged
          (scope_id io request.request_id s).0
          s.id
          s.lines
          (correlation_middleware io clock call_next request s)
        × (t : Logging) × (t.id ≡ (scope_id io request.request_id s).0)
        × ((correlation_middleware io clock call_next request s).0
            ≡ echo t.id (call_next request t).0)
  unfolding correlation_middleware
  correlation_middleware-IsTagged s next =
      let cid = (scope_id io request.request_id s).0 in
      let entered = record (scope_id io request.request_id s).1 { id = cid } in
      let opened = ticked (opening clock request entered) in
      (
        correlation_scope-IsTagged io request.request_id (handled io clock call_next request) s
            (λ t e.
              subst (λ c. IsTagged t.id t.id t.lines (handled io clock call_next request c t)) e
                (handled-IsTagged t next)),
        opened,
        opening-id clock request entered,
        reset-outcome s.id (handled io clock call_next request cid entered)
            ∙ closing-echo clock request _ cid (call_next request opened)
            ∙ ap (λ i. echo i (call_next request opened).0)
                (sym (opening-id clock request entered)),
      )
