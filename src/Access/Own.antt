-- ===== src/Access/Own.antt =====
-- How many requests of one client pass the limiter of backend/app/core/security.py, by its bucket alone.
use ai_repo.Prelude.{
  ℕ, ◌≡◌, ◌≤◌, refl, inl, inr, Option, none, some, Bool, true, false, ◌&&◌, List, [], ◌∷◌, ◌+◌, ◌-◌,
  ◌*◌, leb, ltb, if◌then◌else◌, get_or, Bool-cases, arith,
}

-- One client's share of the limiter: the answer at a time, and the bucket after it
unfoldable pub answer : (window limit : ℕ) → Option (ℕ × ℕ) → ℕ → Bool × Option (ℕ × ℕ)
answer window limit bucket now =
    let (started_at, count) = get_or bucket (now, 0) in
    if leb (started_at + window) now
    then (true, some (now, 1))
    else if leb limit count
    then (false, bucket)
    else (true, some (started_at, count + 1))

-- The same for the bucket of one client
unfoldable pub own_passed : (window limit lo hi : ℕ) → Option (ℕ × ℕ) → List ℕ → ℕ
own_passed window limit lo hi bucket [] = 0
own_passed window limit lo hi bucket (t ∷ times) =
    let own = answer window limit bucket t in
    let rest = own_passed window limit lo hi own.1 times in
    if own.0 && leb lo t && ltb t hi then rest + 1 else rest

-- Times that do not go back, from `from` on
abbrev pub IsAscending : (from : ℕ) → List ℕ → Type 0
IsAscending from [] = Unit
IsAscending from (t ∷ times) = from ≤ t × IsAscending t times

module _ (window limit lo hi : ℕ) where
  -- Nothing counts after the end of the interval.
  own_passed-zero :
      (from : ℕ) (bucket : Option (ℕ × ℕ)) (times : List ℕ)
      → hi ≤ from
      → IsAscending from times
      → own_passed window limit lo hi bucket times ≡ 0
  unfolding own_passed
  own_passed-zero from bucket [] late up = refl
  own_passed-zero from bucket (t ∷ times) late up =
      ground (arith, own_passed-zero t (answer window limit bucket t).1 times (omega arith) up.1)

  -- In the window that reaches to the end of the interval, only what the limit leaves passes.
  own_passed-last :
      (started count from : ℕ) (times : List ℕ)
      → hi ≤ started + window
      → count ≤ limit
      → IsAscending from times
      → own_passed window limit lo hi (some (started, count)) times ≤ limit - count
  unfolding own_passed answer
  own_passed-last started count from [] reach within up = ground arith
  own_passed-last started count from (t ∷ times) reach within up =
      elim (Bool-cases (leb (started + window) t)) [
        | inl new ↦
            rw (own_passed, answer, new) ground
              (arith, own_passed-zero t (some (t, 1)) times (ground arith) up.1)
        | inr old ↦ elim (Bool-cases (leb limit count)) [
          | inl full ↦
              rw (own_passed, answer, old, full) ground
                (arith, own_passed-last started count t times reach within up.1)
          | inr free ↦
              rw (own_passed, answer, old, free) ground
                (arith, own_passed-last started (count + 1) t times reach (ground arith) up.1)
        ]
      ]

-- The interval is as long as a window: at most the end of one window and the start of another fall in it.
module _ (window limit lo : ℕ) (some_pass : 1 ≤ limit) where
  own_passed-window :
      (started count from : ℕ) (times : List ℕ)
      → count ≤ limit
      → IsAscending from times
      → own_passed window limit lo (lo + window) (some (started, count)) times
          + (if ltb lo (started + window) then count else 0)
        ≤ 2 * limit
  unfolding own_passed answer
  own_passed-window started count from [] within up = ground arith
  own_passed-window started count from (t ∷ times) within up =
      elim (Bool-cases (leb (started + window) t)) [
        | inl new ↦ elim (Bool-cases (leb lo t)) [
          | inl inside ↦
              rw (own_passed, answer, new) ground
                (
                  arith,
                  own_passed-last window limit lo (lo + window) t 1 t times (ground arith) some_pass
                      up.1,
                )
          | inr before ↦
              rw (own_passed, answer, new) ground
                (arith, own_passed-window t 1 t times some_pass up.1)
        ]
        | inr old ↦ elim (Bool-cases (leb limit count)) [
          | inl full ↦
              rw (own_passed, answer, old, full) ground
                (arith, own_passed-window started count t times within up.1)
          | inr free ↦
              rw (own_passed, answer, old, free) ground
                (arith, own_passed-window started (count + 1) t times (ground arith) up.1)
        ]
      ]

  pub own_passed-first :
      (from : ℕ) (times : List ℕ)
      → IsAscending from times
      → own_passed window limit lo (lo + window) none times ≤ 2 * limit
  unfolding own_passed answer
  own_passed-first from [] up = ground arith
  own_passed-first from (t ∷ times) up = elim (Bool-cases (leb lo t)) [
    | inl inside ↦
        let last =
          own_passed-last window limit lo (lo + window) t 1 t times (ground arith) some_pass up.1 in
        ground (arith, last)
    | inr before ↦ ground (arith, own_passed-window t 1 t times some_pass up.1)
  ]
