-- ===== src/Access/Rates.antt =====
-- How many requests of one client pass the limiter of backend/app/core/security.py.
use ai_repo.Prelude.{
  ℕ, String, ◌≡◌, ◌≤◌, refl, inl, inr, Option, none, Bool, false, ◌&&◌, List, [], ◌∷◌, ◌+◌, ◌*◌,
  leb, ltb, ◌==◌, eq_iff, if◌then◌else◌, get_or, Bool-cases, arith, map,
}
use ai_repo.Domain.{lookup}
use ai_repo.Access.{RateLimiter, allow}
use ai_repo.Access.Own.{answer, own_passed, own_passed-first, IsAscending}
use ai_repo.Access.Keys.{lookup-set_item}

module _ (key : String) (now : ℕ) (limiter : RateLimiter) where
  abbrev own_answer : Bool × Option (ℕ × ℕ)
  own_answer = answer limiter.window_seconds limiter.max_requests (lookup key limiter.buckets) now

  allow-answer :
      ((allow key now limiter).0 ≡ own_answer.0)
      × (lookup key (allow key now limiter).1.buckets ≡ own_answer.1)
  unfolding allow answer
  allow-answer =
      let started = (get_or (lookup key limiter.buckets) (now, 0)).0 in
      let count = (get_or (lookup key limiter.buckets) (now, 0)).1 in
      let self = (eq_iff key key).1 refl in
      let first = lookup-set_item key key (now, 1) limiter.buckets in
      let more = lookup-set_item key key (started, count + 1) limiter.buckets in
      elim (Bool-cases (leb (started + limiter.window_seconds) now)) [
        | inl new ↦ rw (allow, new) (refl, ground (arith, first))
        | inr old ↦ elim (Bool-cases (leb limiter.max_requests count)) [
          | inl full ↦ rw (allow, old, full) (refl, refl)
          | inr free ↦ rw (allow, old, free) (refl, ground (arith, more))
        ]
      ]

  -- A request leaves the settings alone, and the buckets of other clients.
  allow-settings :
      ((allow key now limiter).1.window_seconds ≡ limiter.window_seconds)
      × ((allow key now limiter).1.max_requests ≡ limiter.max_requests)
  unfolding allow
  allow-settings = ground arith

  allow-other :
      (other : String)
      → (key == other) ≡ false
      → lookup other (allow key now limiter).1.buckets ≡ lookup other limiter.buckets
  unfolding allow
  allow-other other differ =
      let started = (get_or (lookup key limiter.buckets) (now, 0)).0 in
      let count = (get_or (lookup key limiter.buckets) (now, 0)).1 in
      ground (
        arith,
        lookup-set_item key other (now, 1) limiter.buckets,
        lookup-set_item key other (started, count + 1) limiter.buckets,
      )

-- The requests of `key` in a run that pass at a time from `lo` on and before `hi`
unfoldable pub passed : String → (lo hi : ℕ) → RateLimiter → List (String × ℕ) → ℕ
unfolding allow
passed key lo hi limiter [] = 0
passed key lo hi limiter ((k, t) ∷ requests) =
    let rest = passed key lo hi (allow k t limiter).1 requests in
    if k == key && (allow k t limiter).0 && leb lo t && ltb t hi then rest + 1 else rest

times_of : String → List (String × ℕ) → List ℕ
times_of key [] = []
times_of key ((k, t) ∷ requests) =
    let rest = times_of key requests in if k == key then t ∷ rest else rest

passed-own_passed :
    (key : String) (lo hi : ℕ) (limiter : RateLimiter) (requests : List (String × ℕ))
    → passed key lo hi limiter requests
      ≡ own_passed limiter.window_seconds limiter.max_requests lo hi
          (lookup key limiter.buckets)
          (times_of key requests)
unfolding passed own_passed times_of
passed-own_passed key lo hi limiter [] = refl
passed-own_passed key lo hi limiter ((k, t) ∷ requests) = elim (Bool-cases (k == key)) [
  | inl same ↦
      let one = allow-answer key t limiter in
      let kept = allow-settings key t limiter in
      let later = passed-own_passed key lo hi (allow key t limiter).1 requests in
      let key_is = (eq_iff k key).0 same in
      let self = (eq_iff key key).1 refl in
      rw (passed, key_is, self, later, kept.0, kept.1, one.0, one.1) refl
  | inr differ ↦
      let other = allow-other k t limiter key differ in
      let kept = allow-settings k t limiter in
      let later = passed-own_passed key lo hi (allow k t limiter).1 requests in
      rw (passed, differ, later, kept.0, kept.1, other) ground arith
]

IsAscending-earlier :
    (from later : ℕ) (times : List ℕ)
    → from ≤ later
    → IsAscending later times
    → IsAscending from times
IsAscending-earlier from later [] before up = tt
IsAscending-earlier from later (t ∷ times) before up = (omega arith, up.1)

times_of-IsAscending :
    (key : String) (from : ℕ) (requests : List (String × ℕ))
    → IsAscending from (map (λ r. r.1) requests)
    → IsAscending from (times_of key requests)
unfolding times_of
times_of-IsAscending key from [] up = tt
times_of-IsAscending key from ((k, t) ∷ requests) up =
    let rest = times_of-IsAscending key t requests up.1 in
    elim (Bool-cases (k == key)) [
      | inl same ↦ rw same (up.0, rest)
      | inr differ ↦ rw differ (IsAscending-earlier from t (times_of key requests) up.0 rest)
    ]

-- With a limiter that has served nobody yet and lets at least one request through in a window, and with
-- requests whose times do not go back, at most twice the maximum of one client's requests pass in any
-- interval as long as the window.
pub passed-twice :
    (window limit lo : ℕ) (key : String) (requests : List (String × ℕ))
    → 1 ≤ limit
    → IsAscending 0 (map (λ r. r.1) requests)
    → passed key lo
        (lo + window)
        (record { window_seconds = window; max_requests = limit; buckets = [] })
        requests
      ≤ 2 * limit
unfolding passed lookup
passed-twice window limit lo key requests some_pass up =
    let fresh : RateLimiter = record {
      window_seconds = window;
      max_requests = limit;
      buckets = [];
    } in
    let own : own_passed window limit lo (lo + window) none (times_of key requests) ≤ 2 * limit =
      own_passed-first window limit lo some_pass 0 (times_of key requests)
        (times_of-IsAscending key 0 requests up) in
    rw (passed-own_passed key lo (lo + window) fresh requests) own
