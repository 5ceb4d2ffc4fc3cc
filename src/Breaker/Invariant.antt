-- ===== src/Breaker/Invariant.antt =====
-- The invariant of a breaker, under every sequence of calls.
use s3mer.Base.{ℕ, ◌≤◌, ◌<◌, ◌≡◌, ◌≢◌, ◌⊎◌, none, some, List, [], ◌∷◌, arith}
use s3mer.Breaker.{Breaker, closed, init, allow_request, record_success, record_failure}

-- The metric shows the state; before the first change of state it is not set.
abbrev pub Reported : Breaker → Type 0
Reported b = (b.gauge ≡ some b.state) ⊎ ((b.gauge ≡ none) × (b.state ≡ closed))

pub record IsValid (b : Breaker) : Type 0 where
  pub positive : 0 < b.failure_threshold
  pub few_failures : b.state ≡ closed → b.failure_count < b.failure_threshold
  pub not_timed : b.state ≡ closed → b.opened_at ≡ none
  pub many_failures : b.state ≢ closed → b.failure_threshold ≤ b.failure_count
  pub timed : b.state ≢ closed → b.opened_at ≢ none
  pub reported : Reported b

-- The calls that clients make on a breaker, with the time that each reads.
pub data Event : Type 0 where
  ask : ℕ → Event
  success : Event
  failure : ℕ → Event

unfoldable pub apply : Breaker → Event → Breaker
apply b (ask now) = (allow_request now b).1
apply b success = record_success b
apply b (failure now) = record_failure now b

unfoldable pub run : Breaker → List Event → Breaker
unfolding apply
run b [] = b
run b (e ∷ es) = run (apply b e) es

init-IsValid : (threshold duration : ℕ) → 0 < threshold → IsValid (init threshold duration)
unfolding init
init-IsValid threshold duration h = ground arith

ask-IsValid : (now : ℕ) (b : Breaker) → IsValid b → IsValid (allow_request now b).1
unfolding allow_request
ask-IsValid now b v = ground arith

success-IsValid : (b : Breaker) → IsValid b → IsValid (record_success b)
unfolding record_success
success-IsValid b v = ground arith

failure-IsValid : (now : ℕ) (b : Breaker) → IsValid b → IsValid (record_failure now b)
unfolding record_failure
failure-IsValid now b v = ground arith

apply-IsValid : (b : Breaker) (e : Event) → IsValid b → IsValid (apply b e)
unfolding apply
apply-IsValid b (ask now) v = ask-IsValid now b v
apply-IsValid b success v = success-IsValid b v
apply-IsValid b (failure now) v = failure-IsValid now b v

run_keeps : (b : Breaker) (es : List Event) → IsValid b → IsValid (run b es)
unfolding run
run_keeps b [] v = v
run_keeps b (e ∷ es) v = run_keeps (apply b e) es (apply-IsValid b e v)

-- A breaker made with a positive threshold satisfies the invariant after any sequence of calls: it
-- is closed exactly while fewer failures are counted than the threshold and no opening time is
-- set, and the metric shows its state (or is unset, while it is closed).
pub run-IsValid :
    (threshold duration : ℕ) (es : List Event)
    → 0 < threshold
    → IsValid (run (init threshold duration) es)
run-IsValid threshold duration es h = run_keeps _ es (init-IsValid threshold duration h)
