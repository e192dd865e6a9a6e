-- ===== src/Access/Gate/Cases.antt =====
-- The ways a request under a rule ends in `security_audit_middleware` of backend/app/main.py.
use ai_repo.Prelude.{ℕ, String, inl, inr, some, ◌&&◌, Bool-cases}
use ai_repo.Access.{has_role, allow, RateLimiter, EndpointRule}
use ai_repo.Access.Gate.{
  Edge, Request, Conditions, Response, AppState, principal, rate_key, is_duplicate, refuse, forbid,
  run_handler, guarded,
}

module _ {W : Type 0} (edge : Edge W) (conditions : Conditions) (request : Request)
    (state : AppState W) where
  -- What holds of a refusal, whichever it is, and of a run of the handler, holds of a request under a rule.
  pub guarded-cases :
      (P : Response × AppState W → Type 0) (rule : EndpointRule)
      → ((limiter : RateLimiter) (status_code : ℕ) (error detail : String)
          → P (
              refuse edge conditions request status_code error detail
                (record state { rate_limiter = limiter })))
      → ((limiter : RateLimiter)
          → P (forbid edge conditions request rule (record state { rate_limiter = limiter })))
      → ((limiter : RateLimiter)
          → P (
              run_handler edge conditions request
                (some rule)
                (record state { rate_limiter = limiter })))
      → P (guarded edge conditions request rule state)
  unfolding guarded
  guarded-cases P rule refused forbidden ran =
      let asker = principal edge conditions request in
      let asked = allow (rate_key edge conditions request) conditions.now state.rate_limiter in
      elim (Bool-cases asked.0) [
        | inr busy ↦ rw (guarded, busy) (refused asked.1 429 "rate_limited" "Too many requests.")
        | inl free ↦ elim (Bool-cases (asker.authenticated && has_role asker rule.role)) [
          | inr weak ↦ rw (guarded, free, weak) (forbidden asked.1)
          | inl strong ↦
              elim (Bool-cases (is_duplicate edge conditions request state.world.audit)) [
                | inl again ↦
                    rw (guarded, free, strong, again)
                      (refused asked.1 409 "duplicate_request"
                        "Mutation already completed for this idempotency key.")
                | inr new ↦ rw (guarded, free, strong, new) (ran asked.1)
              ]
        ]
      ]
