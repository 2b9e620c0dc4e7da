-- ===== src/Breaker.antt =====
-- src/utils/circuitBreaker.ts: the circuit breaker around calls of outside services. Times are
-- milliseconds; what the wrapped call and the fallback do is an argument. `execute` awaits the
-- call, so other calls run between its start (`admit`) and its end (`on_success`, `on_failure`).
pub mod Interleaved
pub mod Sequence
use project_task_cashbook_ba.Base.{
  ℕ, ◌+◌, leb, Bool, true, false, Option, none, some, if◌then◌else◌,
}
use project_task_cashbook_ba.Base.Result.{Result, ok, err}

pub data CircuitBreakerState : Type 0 where
  closed open_ half_open : CircuitBreakerState

pub record CircuitBreakerOptions : Type 0 where
  pub failure_threshold : ℕ
  pub reset_timeout_ms : ℕ
  pub half_open_max_attempts : ℕ

pub record CircuitBreaker : Type 0 where
  pub state : CircuitBreakerState
  pub failure_count : ℕ
  pub last_failure_time : ℕ
  pub half_open_attempts : ℕ

abbrev pub default_options : CircuitBreakerOptions
default_options = record {
  failure_threshold = 5;
  reset_timeout_ms = 30000;
  half_open_max_attempts = 3;
}

-- The fields as they are initialised.
abbrev pub fresh : CircuitBreaker
fresh = record {
  state = CircuitBreakerState.closed;
  failure_count = 0;
  last_failure_time = 0;
  half_open_attempts = 0;
}

-- The first `if` of `execute`: the breaker with which the call goes ahead, or none when it does not.
abbrev pub admit_open :
    CircuitBreakerOptions → ℕ → CircuitBreaker → CircuitBreakerState → Option CircuitBreaker
admit_open o now b CircuitBreakerState.open_ =
    if leb (b.last_failure_time + o.reset_timeout_ms) now
    then some (record b { state = CircuitBreakerState.half_open; half_open_attempts = 0 })
    else none
admit_open o now b _ = some b

unfoldable pub admit : CircuitBreakerOptions → ℕ → CircuitBreaker → Option CircuitBreaker
admit o now b = admit_open o now b b.state

abbrev pub succeed_in :
    CircuitBreakerOptions → CircuitBreaker → CircuitBreakerState → CircuitBreaker
succeed_in o b CircuitBreakerState.half_open =
    let counted = record b { half_open_attempts = b.half_open_attempts + 1 } in
    if leb o.half_open_max_attempts counted.half_open_attempts
    then record counted { state = CircuitBreakerState.closed; failure_count = 0 }
    else counted
succeed_in o b _ = record b { failure_count = 0 }

unfoldable pub on_success : CircuitBreakerOptions → CircuitBreaker → CircuitBreaker
on_success o b = succeed_in o b b.state

abbrev pub fail_in : CircuitBreakerOptions → CircuitBreaker → CircuitBreakerState → CircuitBreaker
fail_in o b CircuitBreakerState.half_open = record b { state = CircuitBreakerState.open_ }
fail_in o b _ =
    if leb o.failure_threshold b.failure_count
    then record b { state = CircuitBreakerState.open_ }
    else b

unfoldable pub on_failure : CircuitBreakerOptions → ℕ → CircuitBreaker → CircuitBreaker
on_failure o now b =
    let counted = record b { failure_count = b.failure_count + 1; last_failure_time = now } in
    fail_in o counted counted.state

-- The two errors that `execute` can throw: its own, or the one of the call (or of the fallback).
pub data Failure (E : Type 0) : Type 0 where
  circuit_open : Failure E
  thrown : E → Failure E

module _ {E : Type 0} {T : Type 0} where
  abbrev pub outcome_of : Result E T → Result (Failure E) T
  outcome_of (ok value) = ok value
  outcome_of (err error) = err (Failure.thrown error)

  -- `if (fallback) return fallback(); throw error`
  abbrev pub or_fallback : Failure E → Option (Result E T) → Result (Failure E) T
  or_fallback error none = err error
  or_fallback error (some fallback) = outcome_of fallback

  -- The breaker afterwards, whether the call was made, and what `execute` returns or throws, when
  -- no other call runs in between. `now` is the time at the start and `later` at the end.
  abbrev pub settle :
      CircuitBreakerOptions
      → ℕ
      → Result E T
      → Option (Result E T)
      → CircuitBreaker
      → CircuitBreaker × Bool × Result (Failure E) T
  settle o later (ok value) fallback b = (on_success o b, true, ok value)
  settle o later (err error) fallback b =
      (on_failure o later b, true, or_fallback (Failure.thrown error) fallback)

  unfoldable pub execute :
      CircuitBreakerOptions
      → ℕ
      → ℕ
      → Result E T
      → Option (Result E T)
      → CircuitBreaker
      → CircuitBreaker × Bool × Result (Failure E) T
  unfolding admit on_success on_failure
  execute o now later call fallback b = elim (admit o now b) [
    | some admitted ↦ settle o later call fallback admitted
    | none ↦ (b, false, or_fallback Failure.circuit_open fallback)
  ]
