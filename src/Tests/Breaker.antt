-- ===== src/Tests/Breaker.antt =====
-- The circuit breaker on concrete calls.
use project_task_cashbook_ba.Base.{
  ℕ, ◌<◌, ◌≡◌, ◌++◌, refl, true, false, Option, none, some, List, [], ◌∷◌, arith,
}
use project_task_cashbook_ba.Base.Result.{Result, ok, err}
use project_task_cashbook_ba.Breaker.{
  CircuitBreakerState, CircuitBreaker, Failure, default_options, fresh, admit, on_success,
  on_failure, execute,
}
use project_task_cashbook_ba.Breaker.Interleaved.{
  System, start, fail, succeed, Reach, here, next, IsWithin, Reach-IsWithin,
}
use project_task_cashbook_ba.Breaker.Sequence.{
  after, successes, failures, raised, replaced, execute_fallback, recovers, trips,
}

-- A breaker that opened at time 1000.
abbrev tripped : CircuitBreaker
tripped = record fresh {
  state = CircuitBreakerState.open_;
  failure_count = 5;
  last_failure_time = 1000;
}

abbrev half_opened : CircuitBreaker
half_opened = record tripped { state = CircuitBreakerState.half_open; half_open_attempts = 0 }

abbrev good : Result ℕ ℕ
good = ok 7

abbrev bad : Result ℕ ℕ
bad = err 404

too_early :
    execute default_options 30999 31100 good none tripped
    ≡ (tripped, false, err Failure.circuit_open)
unfolding execute
too_early = refl

in_time :
    execute default_options 31000 31100 good none tripped
    ≡ (record half_opened { half_open_attempts = 1 }, true, ok 7)
unfolding execute
in_time = refl

falls_back :
    execute default_options 31000 31100 bad (some good) half_opened
    ≡ (record tripped { failure_count = 6; last_failure_time = 31100 }, true, ok 7)
unfolding execute
falls_back = refl

execute_fallback_example :
    let (b', called, result) = execute default_options 2000 2100 bad none tripped in
    let (b'', called', result') = execute default_options 2000 2100 bad (some good) tripped in
    (b'' ≡ b')
    × (called' ≡ called)
    × (result' ≡ replaced result good)
    × (called ≡ true → result ≡ raised bad)
    × (called ≡ false → (result ≡ err Failure.circuit_open) × (b' ≡ tripped))
execute_fallback_example = execute_fallback default_options 2000 2100 bad good tripped

recovers_example :
    let b' =
      after {E = ℕ} default_options tripped
        (successes {T = ℕ} ((31000, 1) ∷ (31000, 2) ∷ (40000, 3) ∷ [])) in
    (b'.state ≡ CircuitBreakerState.closed) × (b'.failure_count ≡ 0)
recovers_example =
    recovers ℕ ℕ default_options 31000 1 ((31000, 2) ∷ (40000, 3) ∷ []) tripped (omega arith) refl
      (omega arith) (omega arith)

abbrev four_failures : List (ℕ × ℕ)
four_failures = (1, 500) ∷ (2, 500) ∷ (3, 500) ∷ (4, 500) ∷ []

trips_example :
    (4 < 5
      → (after {T = ℕ} default_options fresh (failures four_failures)).state
        ≡ CircuitBreakerState.closed)
    × (◌≡◌ {A = ℕ} 5 5
        → let b' =
            after {T = ℕ} default_options fresh (failures four_failures ++ (10, err 500) ∷ []) in
          (b'.state ≡ CircuitBreakerState.open_)
          × ((start later : ℕ) (call : Result ℕ ℕ) (fallback : Option (Result ℕ ℕ))
              → start < 30010
              → ((execute default_options start later call fallback b').0 ≡ b')
                × ((execute default_options start later call fallback b').1 ≡ false)))
trips_example = trips ℕ ℕ default_options four_failures 10 500 fresh refl refl

-- Two calls that overlap; the first fails and the second succeeds.
abbrev at_start : System
at_start = record { breaker = fresh; clock = 0; in_flight = 0 }

overlapping : Reach default_options (record {
  breaker = on_success default_options (on_failure default_options 0 fresh);
  clock = 0;
  in_flight = 0;
})
unfolding admit
overlapping =
    next
      (next (next (next (here 0) (start fresh refl refl)) (start fresh refl refl))
        (fail (omega arith) refl))
      (succeed (omega arith) refl)

Reach-IsWithin_example :
    IsWithin default_options (on_success default_options (on_failure default_options 0 fresh))
Reach-IsWithin_example = Reach-IsWithin default_options (omega arith) (omega arith) overlapping
