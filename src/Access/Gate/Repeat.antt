-- ===== src/Access/Gate/Repeat.antt =====
-- Which requests are taken for repeated ones: the idempotency keys of `security_audit_middleware` of backend/app/main.py.
use ai_repo.Prelude.{
  String, ◌≡◌, ◌≢◌, ◌↔◌, inl, inr, some, true, false, not, ◌&&◌, List, ◌==◌, eq_iff, Option-cases,
  arith, In, any-eq-true_iff,
}
use ai_repo.Text.{non_empty}
use ai_repo.Access.Keys.{is_key-eq-true_iff}
use ai_repo.Access.Gate.{
  Edge, AuditEvent, Request, Conditions, idempotency_seen, is_done, seen_safely, is_duplicate,
}

-- A request other than GET with a key, under which the audit shows an earlier request of the same
-- path, of any method, as succeeded
unfoldable pub IsTakenAsDone :
    {W : Type 0} → Edge W → Conditions → Request → List AuditEvent → Type 0
IsTakenAsDone edge conditions request events =
    (key : String) × (request.idempotency_key ≡ some key)
    × (non_empty key ≡ true)
    × (edge.upper request.method ≢ "GET")
    × (conditions.can_check ≡ true)
    × (e : AuditEvent) × In e events
    × (e.endpoint ≡ request.path)
    × (e.idempotency_key ≡ some key)
    × (e.result ≡ "succeeded")

pub idempotency_seen-eq-true_iff :
    (endpoint key : String) (events : List AuditEvent)
    → (idempotency_seen endpoint key events ≡ true) ↔ (
        (e : AuditEvent) × In e events
        × (e.endpoint ≡ endpoint)
        × (e.idempotency_key ≡ some key)
        × (e.result ≡ "succeeded"))
unfolding idempotency_seen
idempotency_seen-eq-true_iff endpoint key events = (
  λ h.
      let (e, m, t) = (any-eq-true_iff (is_done endpoint key) events).0 h in
      (
        e,
        m,
        (eq_iff e.endpoint endpoint).0 (ground arith),
        (is_key-eq-true_iff key e.idempotency_key).0 (ground arith),
        (eq_iff e.result "succeeded").0 (ground arith),
      ),
  λ (e, m, here_, its, done). (any-eq-true_iff (is_done endpoint key) events).1 (
    e,
    m,
    ground (
      arith,
      (eq_iff e.endpoint endpoint).1 here_,
      (is_key-eq-true_iff key e.idempotency_key).1 its,
      (eq_iff e.result "succeeded").1 done,
    ),
  ),
)

module _ {W : Type 0} (edge : Edge W) (conditions : Conditions) (request : Request) where
  pub is_duplicate-IsTakenAsDone_iff :
      (events : List AuditEvent)
      → (is_duplicate edge conditions request events ≡ true)
        ↔ IsTakenAsDone edge conditions request events
  unfolding IsTakenAsDone
  is_duplicate-IsTakenAsDone_iff events =
      let get = eq_iff (edge.upper request.method) "GET" in
      (
        λ h. elim (Option-cases request.idempotency_key) [
          | inl missing ↦ let h' : false ≡ true = rw missing at h in cc
          | inr (key, key_is) ↦
              let all : (non_empty key
                    && not (edge.upper request.method == "GET")
                    && seen_safely conditions request.path key events)
                  ≡ true =
                rw key_is at h in
              let (e, m, at_path, with_key, done) =
                (idempotency_seen-eq-true_iff request.path key events).0 (ground arith) in
              (
                key,
                key_is,
                ground arith,
                λ g. ground (arith, get.1 g),
                ground arith,
                e,
                m,
                at_path,
                with_key,
                done,
              )
        ],
        λ (key, key_is, full, other, can_check, e, m, at_path, with_key, done).
            let method : (edge.upper request.method == "GET") ≡ false = ground (arith, get.0) in
            let seen =
              (idempotency_seen-eq-true_iff request.path key events).1
                (e, m, at_path, with_key, done) in
            rw key_is (ground arith),
      )
