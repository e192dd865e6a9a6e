-- ===== src/Access/Gate/Cleared.antt =====
-- Which requests the middleware of backend/app/main.py hands to their handler.
use ai_repo.Prelude.{
  ◌≡◌, ◌≤◌, refl, ◌↔◌, inl, inr, Option, none, some, Bool, true, false, ◌&&◌, if◌then◌else◌,
  Bool-cases, Option-cases, IfSome, arith,
}
use ai_repo.Access.{role_rank, has_role, allow, RateLimiter, EndpointRule}
use ai_repo.Access.Rules.{endpoint_rule}
use ai_repo.Access.Gate.{
  Edge, AuditEvent, Request, Conditions, Reply, Response, rejected, failed, answered, World,
  AppState, principal, rate_key, is_duplicate, response_of, event_of, event, write_audit,
  run_handler, guarded, security_audit_middleware, replied, raised,
}
use ai_repo.Access.Gate.Repeat.{IsTakenAsDone, is_duplicate-IsTakenAsDone_iff}
use ai_repo.Access.Gate.Cases.{guarded-cases}

-- The handler ran: its response is passed on, or its exception is
pub is_handled : Response → Bool
is_handled (rejected status_code error detail trace_id) = false
is_handled (failed detail trace_id) = true
is_handled (answered status_code content trace_id) = true

-- Under a rule, the limiter lets the client pass, its role is high enough, and the request is not taken
-- for one that was done.
unfoldable pub IsCleared :
    {W : Type 0} → Edge W → Conditions → Request → AppState W → EndpointRule → Type 0
IsCleared edge conditions request state rule =
    let asker = principal edge conditions request in
    ((allow (rate_key edge conditions request) conditions.now state.rate_limiter).0 ≡ true)
    × (asker.authenticated ≡ true)
    × (role_rank rule.role ≤ role_rank asker.role)
    × ¬ IsTakenAsDone edge conditions request state.world.audit

module _ {W : Type 0} (edge : Edge W) (conditions : Conditions) (request : Request)
    (state : AppState W) where
  response_of-is_handled :
      (reply : Reply) → is_handled (response_of edge conditions request reply) ≡ true
  unfolding is_handled
  response_of-is_handled (replied status_code content) = refl
  response_of-is_handled (raised error_type) = refl

  run_handler-is_handled :
      (rule : Option EndpointRule) (s : AppState W)
      → is_handled (run_handler edge conditions request rule s).0 ≡ true
  unfolding run_handler is_handled
  run_handler-is_handled rule s = response_of-is_handled (edge.call_next request s.world).0

  guarded-IsCleared_iff :
      (rule : EndpointRule)
      → (is_handled (guarded edge conditions request rule state).0 ≡ true)
        ↔ IsCleared edge conditions request state rule
  unfolding guarded is_handled IsCleared
  guarded-IsCleared_iff rule =
      let asker = principal edge conditions request in
      let asked = allow (rate_key edge conditions request) conditions.now state.rate_limiter in
      let repeat = is_duplicate-IsTakenAsDone_iff edge conditions request state.world.audit in
      elim (Bool-cases asked.0) [
        | inr busy ↦ (λ h. let h' : false ≡ true = rw (guarded, busy) at h in cc, λ c. cc)
        | inl free ↦ elim (Bool-cases (asker.authenticated && has_role asker rule.role)) [
          | inr weak ↦
              (λ h. let h' : false ≡ true = rw (guarded, free, weak) at h in cc, λ c. ground arith)
          | inl strong ↦
              elim (Bool-cases (is_duplicate edge conditions request state.world.audit)) [
                | inl again ↦ (
                  λ h. let h' : false ≡ true = rw (guarded, free, strong, again) at h in cc,
                  λ c. absurd (c.3 (repeat.0 again)),
                )
                | inr new ↦ (
                  λ _. (free, ground arith, ground arith, λ r. ground (arith, repeat.1 r)),
                  λ _.
                      rw (guarded, free, strong, new)
                        (run_handler-is_handled (some rule)
                          (record state { rate_limiter = asked.1 })),
                )
              ]
        ]
      ]

  abbrev IsOwn : Response × AppState W → Type 0
  IsOwn result = result.1.world.rest ≡ (
      if is_handled result.0 then (edge.call_next request state.world).1.rest else state.world.rest)

  write_audit-rest :
      (event : AuditEvent) (world : World W)
      → (write_audit edge conditions request event world).rest ≡ world.rest
  write_audit-rest event world = elim (Bool-cases conditions.can_write) [
    | inl up ↦ rw up refl
    | inr down ↦ rw down refl
  ]

  run_handler-IsOwn :
      (rule : Option EndpointRule) (limiter : RateLimiter)
      → IsOwn (run_handler edge conditions request rule (record state { rate_limiter = limiter }))
  unfolding run_handler
  run_handler-IsOwn none limiter =
      rw (run_handler-is_handled none (record state { rate_limiter = limiter })) refl
  run_handler-IsOwn (some rule) limiter =
      let ran = edge.call_next request state.world in
      rw (run_handler-is_handled (some rule) (record state { rate_limiter = limiter }))
        (write_audit-rest (event_of edge conditions request rule ran.0) ran.1)

  guarded-IsOwn : (rule : EndpointRule) → IsOwn (guarded edge conditions request rule state)
  unfolding is_handled
  guarded-IsOwn rule =
      guarded-cases edge conditions request state IsOwn rule
        (λ limiter status_code error detail. refl)
        (λ limiter.
          write_audit-rest
            (event edge conditions request rule "unauthorized" none "rejected" 403 request.metadata)
            state.world)
        (run_handler-IsOwn (some rule))

  middleware-rest : IsOwn (security_audit_middleware edge conditions request state)
  unfolding security_audit_middleware
  middleware-rest = elim (Option-cases (endpoint_rule edge.upper request.method request.path)) [
    | inl open_to_all ↦
        rw (security_audit_middleware, open_to_all) (run_handler-IsOwn none state.rate_limiter)
    | inr (rule, under) ↦ rw (security_audit_middleware, under) (guarded-IsOwn rule)
  ]

  is_handled-IsCleared_iff :
      (is_handled (security_audit_middleware edge conditions request state).0 ≡ true)
      ↔ IfSome
          (endpoint_rule edge.upper request.method request.path)
          (IsCleared edge conditions request state)
  unfolding security_audit_middleware
  is_handled-IsCleared_iff =
      elim (Option-cases (endpoint_rule edge.upper request.method request.path)) [
        | inl open_to_all ↦
            rw (security_audit_middleware, open_to_all)
              (λ _. tt, λ _. run_handler-is_handled none state)
        | inr (rule, under) ↦ rw (security_audit_middleware, under) (guarded-IsCleared_iff rule)
      ]

  -- A handler runs exactly if no rule fits the request, or if under the rule that fits the limiter
  -- lets the client pass, the client is authenticated with a role that is high enough, and it is not
  -- the case that: the method is not GET, a key that is not empty is sent, the database answers, and
  -- the audit shows some request of the same path with that key, of whatever method, as succeeded. The
  -- application's own data is then what the handler leaves, and otherwise untouched.
  pub middleware-IsCleared :
      ((is_handled (security_audit_middleware edge conditions request state).0 ≡ true)
        ↔ IfSome
            (endpoint_rule edge.upper request.method request.path)
            (IsCleared edge conditions request state))
      × ((security_audit_middleware edge conditions request state).1.world.rest ≡ (
          if is_handled (security_audit_middleware edge conditions request state).0
          then (edge.call_next request state.world).1.rest
          else state.world.rest))
  middleware-IsCleared = (is_handled-IsCleared_iff, middleware-rest)
