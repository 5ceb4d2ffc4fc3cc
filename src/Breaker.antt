-- ===== src/Breaker.antt =====
-- The circuit breaker of a backend (src/s3mer/backends/circuit_breaker.py). A reading of
-- `time.monotonic()` is an argument `now`, in whole ticks; durations are in the same ticks.
pub mod Invariant
pub mod Behaviour
use s3mer.Base.{ℕ, zero, suc, ◌+◌, Bool, true, false, not, Option, none, some, leb, if◌then◌else◌}

pub data CircuitState : Type 0 where
  closed opened half_open : CircuitState

-- `gauge` is the value that `metrics.set_backend_circuit_state` was last given.
pub record Breaker : Type 0 where
  pub failure_threshold : ℕ
  pub open_duration : ℕ
  pub state : CircuitState
  pub failure_count : ℕ
  pub opened_at : Option ℕ
  pub gauge : Option CircuitState

-- `BackendCircuitBreaker.__init__`
unfoldable pub init : ℕ → ℕ → Breaker
init threshold duration = record {
  failure_threshold = threshold;
  open_duration = duration;
  state = closed;
  failure_count = 0;
  opened_at = none;
  gauge = none;
}

record_state : Breaker → Breaker
record_state b = record b { gauge = some b.state }

-- `now - opened_at >= open_duration`, on integers
cooled_down : ℕ → Breaker → Bool
cooled_down now b = elim b.opened_at [ none ↦ false | some t ↦ leb (t + b.open_duration) now ]

is_open : CircuitState → Bool
is_open opened = true
is_open _ = false

is_half_open : CircuitState → Bool
is_half_open half_open = true
is_half_open _ = false

-- the property `state`: reading it moves an open breaker on when it has cooled down
unfoldable pub read_state : ℕ → Breaker → CircuitState × Breaker
unfolding record_state cooled_down is_open
read_state now b =
    if is_open b.state
    then (if cooled_down now b
        then (half_open, record_state (record b { state = half_open }))
        else (b.state, b))
    else (b.state, b)

-- `allow_request`
unfoldable pub allow_request : ℕ → Breaker → Bool × Breaker
unfolding read_state
allow_request now b = let (s, b') = read_state now b in (not (is_open s), b')

unfoldable pub record_success : Breaker → Breaker
unfolding record_state
record_success b = record_state (record b { failure_count = 0; state = closed; opened_at = none })

-- `_open`
trip : ℕ → Breaker → Breaker
unfolding record_state
trip now b = record_state (record b { state = opened; opened_at = some now })

unfoldable pub record_failure : ℕ → Breaker → Breaker
unfolding trip is_half_open
record_failure now b =
    let counted : Breaker = record b { failure_count = b.failure_count + 1 } in
    if is_half_open b.state
    then trip now counted
    else if leb b.failure_threshold (b.failure_count + 1)
    then trip now counted
    else counted
