-- ===== src/Breaker/Behaviour.antt =====
-- When a breaker opens, for how long it refuses, and how it recovers.
use s3mer.Base.{
  inl, inr, Option-cases, ℕ, ◌+◌, ◌≤◌, ◌<◌, ◌≡◌, ◌↔◌, true, false, some, List, [], ◌∷◌, map, length,
  arith, ltb, lt→ltb, le→ltb, if◌then◌else◌,
}
use native.Mathlib.Decide.{dec_lt}
use s3mer.Breaker.{Breaker, closed, opened, allow_request, record_success, record_failure}
use s3mer.Breaker.Invariant.{IsValid, failure, run}

stays_closed :
    (b : Breaker) (now : ℕ)
    → b.state ≡ closed
    → b.failure_count + 1 < b.failure_threshold
    → ((record_failure now b).state ≡ closed)
      × ((record_failure now b).failure_count ≡ b.failure_count + 1)
      × ((record_failure now b).failure_threshold ≡ b.failure_threshold)
unfolding record_failure
stays_closed b now e h = ground arith

opens :
    (b : Breaker) (now : ℕ)
    → b.failure_threshold ≤ b.failure_count + 1
    → ((record_failure now b).state ≡ opened)
      × ((record_failure now b).failure_count ≡ b.failure_count + 1)
      × ((record_failure now b).failure_threshold ≡ b.failure_threshold)
unfolding record_failure
opens b now h = ground arith

stays_open :
    (b : Breaker) (ts : List ℕ)
    → b.state ≡ opened
    → b.failure_threshold ≤ b.failure_count
    → (run b (map failure ts)).state ≡ opened
unfolding run
stays_open b [] e h = e
stays_open b (t ∷ ts) e h =
    let after = opens b t (omega arith) in
    stays_open (record_failure t b) ts after.0 (omega (arith, after.1, after.2))

-- Consecutive failures, at any times, leave a closed breaker closed while their number together
-- with the count so far is below the threshold.
closed_below :
    (b : Breaker) (ts : List ℕ)
    → b.state ≡ closed
    → b.failure_count + length ts < b.failure_threshold
    → (run b (map failure ts)).state ≡ closed
unfolding run
closed_below b [] e h = e
closed_below b (t ∷ ts) e h =
    let after = stays_closed b t e (omega arith) in
    closed_below (record_failure t b) ts after.0 (omega (arith, after.1, after.2))

opened_from :
    (b : Breaker) (ts : List ℕ)
    → b.state ≡ closed
    → b.failure_count < b.failure_threshold
    → b.failure_threshold ≤ b.failure_count + length ts
    → (run b (map failure ts)).state ≡ opened
unfolding run
opened_from b [] e h k = absurd (omega arith)
opened_from b (t ∷ ts) e h k = elim (dec_lt (b.failure_count + 1) b.failure_threshold) [
  | yes more ↦
      let after = stays_closed b t e more in
      opened_from (record_failure t b) ts after.0 (omega (arith, after.1, after.2))
        (omega (arith, after.1, after.2))
  | no last ↦
      let after = opens b t (omega arith) in
      stays_open (record_failure t b) ts after.0 (omega (arith, after.1, after.2))
]

-- From a closed breaker, any run of failures with no success between them opens the circuit exactly
-- when the count so far and the run together reach the threshold; before that it stays closed.
pub run-failures :
    (b : Breaker) (ts : List ℕ)
    → IsValid b
    → b.state ≡ closed
    → (run b (map failure ts)).state
      ≡ (if ltb (b.failure_count + length ts) b.failure_threshold then closed else opened)
run-failures b ts v e = elim (dec_lt (b.failure_count + length ts) b.failure_threshold) [
  | yes below ↦ rw (lt→ltb _ _ below) (closed_below b ts e below)
  | no reached ↦
      rw (le→ltb (b.failure_count + length ts) b.failure_threshold (omega arith))
        (opened_from b ts e (v.few_failures e) (omega arith))
]

-- In a valid breaker a request is refused exactly when the circuit is open and the cool-down has
-- not passed since it opened.
pub allow_request-refuses :
    (b : Breaker) (now : ℕ)
    → IsValid b
    → ((allow_request now b).0 ≡ false)
      ↔ ((b.state ≡ opened) × ((t : ℕ) × (b.opened_at ≡ some t) × (now < t + b.open_duration)))
unfolding allow_request
allow_request-refuses b now v = (
  λ h. elim (Option-cases b.opened_at) [
    | inl never ↦ absurd (ground arith)
    | inr (t, e) ↦ (ground arith, (t, e, ground arith))
  ],
  λ (e, (t, o, h)). ground arith,
)

-- After the cool-down of an open circuit requests pass, in the half-open state, until the first
-- reported outcome: a success closes the circuit and forgets the failures, a failure opens it
-- again from its own time.
pub half_open_outcome :
    (b : Breaker) (t now later : ℕ)
    → b.state ≡ opened
    → b.opened_at ≡ some t
    → t + b.open_duration ≤ now
    → let (allowed, b') = allow_request now b in
      (allowed ≡ true)
      × (allow_request later b' ≡ (true, b'))
      × ((record_success b').state ≡ closed)
      × ((record_success b').failure_count ≡ 0)
      × ((record_failure later b').state ≡ opened)
      × ((record_failure later b').opened_at ≡ some later)
unfolding allow_request record_success record_failure
half_open_outcome b t now later e o h = ground arith
