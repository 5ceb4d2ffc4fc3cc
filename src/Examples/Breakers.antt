-- ===== src/Examples/Breakers.antt =====
-- A breaker that opens at the second failure, for thirty ticks.
use s3mer.Base.{
  ℕ, ◌+◌, ◌<◌, ◌≡◌, ◌↔◌, refl, true, false, none, some, List, [], ◌∷◌, map, length, ltb, arith,
  if◌then◌else◌,
}
use s3mer.Breaker
use s3mer.Breaker.{Breaker, closed, opened, allow_request, record_success, record_failure}
use s3mer.Breaker.Invariant.{IsValid, failure, ask, success, run, run-IsValid}
use s3mer.Breaker.Behaviour.{run-failures, allow_request-refuses, half_open_outcome}

run-IsValid_example :
    IsValid (run (Breaker.init 2 30) (failure 0 ∷ failure 1 ∷ ask 31 ∷ success ∷ failure 40 ∷ []))
run-IsValid_example =
    run-IsValid 2 30 (failure 0 ∷ failure 1 ∷ ask 31 ∷ success ∷ failure 40 ∷ []) (omega arith)

abbrev times : List ℕ
times = 3 ∷ 4 ∷ []

abbrev breaker : Breaker
breaker = record {
  failure_threshold = 2;
  open_duration = 30;
  state = closed;
  failure_count = 0;
  opened_at = none;
  gauge = none;
}

breaker-IsValid : IsValid breaker
breaker-IsValid = ground arith

run-failures_example :
    (run breaker (map failure times)).state ≡ (if ltb (0 + length times) 2 then closed else opened)
run-failures_example = run-failures breaker times breaker-IsValid refl

abbrev tripped : Breaker
tripped = record {
  failure_threshold = 2;
  open_duration = 30;
  state = opened;
  failure_count = 2;
  opened_at = some 5;
  gauge = some opened;
}

tripped-IsValid : IsValid tripped
tripped-IsValid = ground arith

allow_request-refuses_example :
    ((allow_request 34 tripped).0 ≡ false)
    ↔ ((opened ≡ opened) × ((t : ℕ) × (some 5 ≡ some t) × (34 < t + 30)))
allow_request-refuses_example = allow_request-refuses tripped 34 tripped-IsValid

half_open_outcome_example :
    let (allowed, b') = allow_request 35 tripped in
    (allowed ≡ true)
    × (allow_request 36 b' ≡ (true, b'))
    × ((record_success b').state ≡ closed)
    × ((record_success b').failure_count ≡ 0)
    × ((record_failure 36 b').state ≡ opened)
    × ((record_failure 36 b').opened_at ≡ some 36)
half_open_outcome_example = half_open_outcome tripped 5 35 36 refl refl (omega arith)
