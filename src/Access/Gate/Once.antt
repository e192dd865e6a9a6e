-- ===== src/Access/Gate/Once.antt =====
-- A completed mutation is not run again: the idempotency keys of `security_audit_middleware` of backend/app/main.py.
use ai_repo.Prelude.{
  ℕ, String, ◌≡◌, ◌≢◌, ◌<◌, refl, sym, ◌∙◌, inl, inr, Option, none, some, true, false, eq_iff,
  Bool-cases, Option-cases, arith, In, ltb,
}
use ai_repo.Text.{non_empty}
use ai_repo.Access.{RateLimiter, EndpointRule}
use ai_repo.Access.Keys.{is_key-eq-true_iff}
use ai_repo.Access.Rules.{endpoint_rule}
use ai_repo.Access.Gate.{
  Edge, AuditEvent, Request, Conditions, Reply, Response, answered, World, AppState,
  idempotency_seen, is_done, response_of, event_of, event, write_audit, run_handler, guarded,
  security_audit_middleware, replied, raised,
}
use ai_repo.Access.Gate.Cleared.{is_handled, IsCleared, middleware-IsCleared}
use ai_repo.Access.Gate.Repeat.{IsTakenAsDone, idempotency_seen-eq-true_iff}
use ai_repo.Access.Gate.Cases.{guarded-cases}

module _ {W : Type 0} (edge : Edge W) where
  -- A request served, and any number of them
  pub data Serve : AppState W → AppState W → Type 0 where
    serve :
        {s : AppState W} (conditions : Conditions) (request : Request)
        → Serve s (security_audit_middleware edge conditions request s).1

  pub data Serves (s : AppState W) : AppState W → Type 0 where
    here : Serves s s
    next : {t u : AppState W} → Serves s t → Serve t u → Serves s u

module _ {W : Type 0} (edge : Edge W) where
  -- The handlers only add audit events.
  abbrev pub IsAppending : Type 0
  IsAppending =
      (request : Request) (world : World W) (e : AuditEvent)
      → In e world.audit
      → In e (edge.call_next request world).1.audit

module _ {W : Type 0} (edge : Edge W) (kept : IsAppending edge) (e : AuditEvent) where
  write_audit-In :
      (conditions : Conditions) (request : Request) (event : AuditEvent) (world : World W)
      → In e world.audit
      → In e (write_audit edge conditions request event world).audit
  write_audit-In conditions request event world m = elim (Bool-cases conditions.can_write) [
    | inl up ↦ rw up (inr m)
    | inr down ↦ rw down m
  ]

  module _ (conditions : Conditions) (request : Request) (state : AppState W)
      (m : In e state.world.audit) where
    run_handler-In :
        (rule : Option EndpointRule) (limiter : RateLimiter)
        → In e
            (run_handler edge conditions request rule
              (record state { rate_limiter = limiter })).1.world.audit
    unfolding run_handler
    run_handler-In none limiter = kept request state.world e m
    run_handler-In (some rule) limiter =
        let ran = edge.call_next request state.world in
        write_audit-In conditions request (event_of edge conditions request rule ran.0) ran.1
          (kept request state.world e m)

    guarded-In :
        (rule : EndpointRule) → In e (guarded edge conditions request rule state).1.world.audit
    guarded-In rule =
        guarded-cases edge conditions request state (λ result. In e result.1.world.audit) rule
          (λ limiter status_code error detail. m)
          (λ limiter.
            write_audit-In conditions request
              (event edge conditions request rule "unauthorized" none "rejected" 403
                request.metadata)
              state.world m)
          (run_handler-In (some rule))

    middleware-In : In e (security_audit_middleware edge conditions request state).1.world.audit
    unfolding security_audit_middleware
    middleware-In = elim (Option-cases (endpoint_rule edge.upper request.method request.path)) [
      | inl open_to_all ↦
          rw (security_audit_middleware, open_to_all) (run_handler-In none state.rate_limiter)
      | inr (rule, under) ↦ rw (security_audit_middleware, under) (guarded-In rule)
    ]

  Serves-In : {s t : AppState W} → Serves edge s t → In e s.world.audit → In e t.world.audit
  Serves-In here m = m
  Serves-In (next reach (serve {s} conditions request)) m =
      middleware-In conditions request s (Serves-In reach m)

module _ {W : Type 0} (edge : Edge W) (conditions : Conditions) (request : Request)
    (state : AppState W) (key : String) where
  IsSeen : Response × AppState W → Type 0
  IsSeen result =
      (status_code : ℕ) (content : String)
      → result.0 ≡ answered status_code content request.trace_id
      → status_code < 400
      → idempotency_seen request.path key result.1.world.audit ≡ true

  event_of-is_done :
      request.idempotency_key ≡ some key
      → (rule : EndpointRule) (reply : Reply) (status_code : ℕ) (content : String)
      → response_of edge conditions request reply ≡ answered status_code content request.trace_id
      → status_code < 400
      → is_done request.path key (event_of edge conditions request rule reply) ≡ true
  event_of-is_done with_key rule (replied code text) status_code content answer good =
      let own = (eq_iff request.path request.path).1 refl in
      let self = (is_key-eq-true_iff key request.idempotency_key).1 with_key in
      let same : code ≡ status_code = cc in
      let small : ltb code 400 ≡ true = ground arith in rw (own, self, small) refl
  event_of-is_done with_key rule (raised error_type) status_code content answer good = cc

  run_handler-IsSeen :
      request.idempotency_key ≡ some key
      → conditions.can_write ≡ true
      → (rule : EndpointRule) (limiter : RateLimiter)
      → IsSeen (
          run_handler edge conditions request (some rule) (record state { rate_limiter = limiter }))
  unfolding IsSeen run_handler idempotency_seen
  run_handler-IsSeen with_key up rule limiter status_code content answer good =
      let ran = edge.call_next request state.world in
      let done = event_of-is_done with_key rule ran.0 status_code content answer good in
      rw up (ground (arith, done))

  middleware-IsSeen :
      request.idempotency_key ≡ some key
      → conditions.can_write ≡ true
      → (rule : EndpointRule) → endpoint_rule edge.upper request.method request.path ≡ some rule
      → IsSeen (security_audit_middleware edge conditions request state)
  unfolding security_audit_middleware IsSeen
  middleware-IsSeen with_key up rule under =
      rw (security_audit_middleware, under)
        (guarded-cases edge conditions request state IsSeen rule
          (λ limiter code error detail status_code content answer good. cc)
          (λ limiter status_code content answer good. cc) (run_handler-IsSeen with_key up rule))

module _ {W : Type 0} (edge : Edge W) (conditions : Conditions) (request : Request)
    (state : AppState W) (key : String) where
  seen-turned_away :
      idempotency_seen request.path key state.world.audit ≡ true
      → conditions.can_check ≡ true
      → request.idempotency_key ≡ some key
      → non_empty key ≡ true
      → edge.upper request.method ≢ "GET"
      → (rule : EndpointRule) → endpoint_rule edge.upper request.method request.path ≡ some rule
      → is_handled (security_audit_middleware edge conditions request state).0 ≡ false
  unfolding IsTakenAsDone IsCleared
  seen-turned_away seen check with_key full mutation rule under =
      let (e, m, at_path, its, done) =
        (idempotency_seen-eq-true_iff request.path key state.world.audit).0 seen in
      let repeat : IsTakenAsDone edge conditions request state.world.audit =
        (key, with_key, full, mutation, check, e, m, at_path, its, done) in
      elim (Bool-cases (is_handled (security_audit_middleware edge conditions request state).0)) [
        | inr away ↦ away
        | inl ran ↦
            let cleared : IsCleared edge conditions request state rule =
              rw under at (middleware-IsCleared edge conditions request state).0.0 ran in
            absurd (cleared.3 repeat)
      ]

module _ {W : Type 0} (edge : Edge W) where
  -- Where the handlers only add audit events: after a request under a rule has been answered with a status below
  -- 400, with a key that is not empty and with the database taking the audit event, no number of requests later
  -- is a mutation of the same path with the same key, under a rule and with the database answering, handed to a
  -- handler.
  pub middleware-Once :
      IsAppending edge
      → (conditions : Conditions) (request : Request) (key : String)
      → request.idempotency_key ≡ some key
      → non_empty key ≡ true
      → conditions.can_write ≡ true
      → (rule : EndpointRule) → endpoint_rule edge.upper request.method request.path ≡ some rule
      → (state : AppState W) (status_code : ℕ) (content : String)
      → (security_audit_middleware edge conditions request state).0
        ≡ answered status_code content request.trace_id
      → status_code < 400
      → (later : AppState W)
      → Serves edge (security_audit_middleware edge conditions request state).1 later
      → (conditions' : Conditions) → conditions'.can_check ≡ true
      → (again : Request) → again.path ≡ request.path
      → again.idempotency_key ≡ some key
      → edge.upper again.method ≢ "GET"
      → (rule' : EndpointRule) → endpoint_rule edge.upper again.method again.path ≡ some rule'
      → is_handled (security_audit_middleware edge conditions' again later).0 ≡ false
  unfolding IsSeen
  middleware-Once kept conditions request key with_key full up rule under state status_code content
        answer good later reach conditions' check again same_path same_key mutation rule' under' =
      let after = (security_audit_middleware edge conditions request state).1 in
      let first =
        middleware-IsSeen edge conditions request state key with_key up rule under status_code
          content answer good in
      let (e, m, at_path, its, done) =
        (idempotency_seen-eq-true_iff request.path key after.world.audit).0 first in
      let still = Serves-In edge kept e reach m in
      let seen =
        (idempotency_seen-eq-true_iff again.path key later.world.audit).1
          (e, still, at_path ∙ sym same_path, its, done) in
      seen-turned_away edge conditions' again later key seen check same_key full mutation rule'
        under'
