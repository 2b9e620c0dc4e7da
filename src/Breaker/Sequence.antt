-- ===== src/Breaker/Sequence.antt =====
-- Calls one after the other.
use project_task_cashbook_ba.Base.{
  ℕ, ◌+◌, ◌≤◌, ◌<◌, ◌≡◌, refl, true, false, Option, none, some, List, [], ◌∷◌, length, map, ◌++◌,
  arith,
}
use native.Mathlib.Decide.{dec_lt}
use project_task_cashbook_ba.Base.Result.{Result, ok, err}
use project_task_cashbook_ba.Breaker.{
  CircuitBreakerState, CircuitBreakerOptions, CircuitBreaker, Failure, admit, on_success,
  on_failure, execute, or_fallback,
}

module _ {E : Type 0} {T : Type 0} where
  abbrev pub successes : List (ℕ × T) → List (ℕ × Result E T)
  successes calls = map (λ c. (c.0, ok c.1)) calls

  abbrev pub failures : List (ℕ × E) → List (ℕ × Result E T)
  failures calls = map (λ c. (c.0, err c.1)) calls

  -- What a call without a fallback comes to, and a fallback in its place.
  abbrev pub raised : Result E T → Result (Failure E) T
  raised (ok value) = ok value
  raised (err error) = err (Failure.thrown error)

  abbrev pub replaced : Result (Failure E) T → Result E T → Result (Failure E) T
  replaced (ok value) fallback = ok value
  replaced (err _) fallback = raised fallback

module _ {E : Type 0} {T : Type 0} (o : CircuitBreakerOptions) where
  -- The breaker after calls that each start and end at a given time.
  abbrev pub after : CircuitBreaker → List (ℕ × Result E T) → CircuitBreaker
  after b [] = b
  after b ((now, call) ∷ calls) = after (execute o now now call none b).0 calls

  -- The two ways of a call: refused, and made.
  execute_lem :
      (now later : ℕ) (call : Result E T) (fallback : Option (Result E T)) (b : CircuitBreaker)
      → let (b', called, result) = execute o now later call fallback b in
        ((b.state ≡ CircuitBreakerState.open_ × now < b.last_failure_time + o.reset_timeout_ms)
          → (b' ≡ b) × (called ≡ false) × (result ≡ or_fallback Failure.circuit_open fallback))
        × ((b.state ≡ CircuitBreakerState.open_ → b.last_failure_time + o.reset_timeout_ms ≤ now)
            → (called ≡ true)
              × ((value : T) → call ≡ ok value → result ≡ ok value)
              × ((error : E)
                  → call ≡ err error
                  → (result ≡ or_fallback (Failure.thrown error) fallback)
                    × (b'.last_failure_time ≡ later)))
  unfolding execute admit on_failure on_success
  execute_lem now later call fallback b = ground arith

  -- A fallback takes the place of any error of `execute`, of the breaker's own as of the call's,
  -- and of no value, and it never changes the breaker or whether the call is made. Without a
  -- fallback a call that is made gives its own value or error, and one that is not leaves the
  -- breaker as it was and gives the breaker's error.
  pub execute_fallback :
      (now later : ℕ) (call fallback : Result E T) (b : CircuitBreaker)
      → let (b', called, result) = execute o now later call none b in
        let (b'', called', result') = execute o now later call (some fallback) b in
        (b'' ≡ b')
        × (called' ≡ called)
        × (result' ≡ replaced result fallback)
        × (called ≡ true → result ≡ raised call)
        × (called ≡ false → (result ≡ err Failure.circuit_open) × (b' ≡ b))
  unfolding execute admit
  execute_fallback now later (ok value) fallback b = ground arith
  execute_fallback now later (err error) (ok value) b = ground arith
  execute_fallback now later (err error) (err error') b = ground arith

module _ (E : Type 0) (T : Type 0) (o : CircuitBreakerOptions) where
  after-successes_closed :
      (calls : List (ℕ × T)) (b : CircuitBreaker)
      → b.state ≡ CircuitBreakerState.closed
      → b.failure_count ≡ 0
      → let b' = after {E = E} o b (successes calls) in
        (b'.state ≡ CircuitBreakerState.closed) × (b'.failure_count ≡ 0)
  unfolding execute admit on_success
  after-successes_closed [] b p q = (p, q)
  after-successes_closed ((now, v) ∷ calls) b p q =
      after-successes_closed calls _ (ground arith) (ground arith)

  execute_half_open :
      (now : ℕ) (v : T) (b : CircuitBreaker)
      → b.state ≡ CircuitBreakerState.half_open
      → let b' = (execute {E = E} o now now (ok v) none b).0 in
        (b.half_open_attempts + 1 < o.half_open_max_attempts
          → (b'.state ≡ CircuitBreakerState.half_open)
            × (b'.half_open_attempts ≡ b.half_open_attempts + 1))
        × (o.half_open_max_attempts ≤ b.half_open_attempts + 1
            → (b'.state ≡ CircuitBreakerState.closed) × (b'.failure_count ≡ 0))
  unfolding execute admit on_success
  execute_half_open now v b p = ground arith

  after-successes_half_open :
      (calls : List (ℕ × T)) (b : CircuitBreaker)
      → b.state ≡ CircuitBreakerState.half_open
      → b.half_open_attempts < o.half_open_max_attempts
      → o.half_open_max_attempts ≤ b.half_open_attempts + length calls
      → let b' = after {E = E} o b (successes calls) in
        (b'.state ≡ CircuitBreakerState.closed) × (b'.failure_count ≡ 0)
  after-successes_half_open [] b p l m = absurd (omega arith)
  after-successes_half_open ((now, v) ∷ calls) b p l m =
      let step = execute_half_open now v b p in
      elim (dec_lt (b.half_open_attempts + 1) o.half_open_max_attempts) [
        | yes more ↦
            let (state, attempts) = step.0 more in
            after-successes_half_open calls _ state (omega (arith, attempts))
              (omega (arith, attempts))
        | no last ↦
            let (state, count) = step.1 (omega arith) in after-successes_closed calls _ state count
      ]

  execute_open :
      (now : ℕ) (call : Result E T) (b : CircuitBreaker)
      → b.state ≡ CircuitBreakerState.open_
      → b.last_failure_time + o.reset_timeout_ms ≤ now
      → (execute o now now call none b).0
        ≡ (execute o now now call none
            (record b { state = CircuitBreakerState.half_open; half_open_attempts = 0 })).0
  unfolding execute admit
  execute_open now call b p late = ground arith

  -- An open breaker recovers: when its timeout is over at the start of the first call, and at least
  -- `half_open_max_attempts` (above zero) calls succeed one after the other, it is closed, with
  -- no failure counted.
  pub recovers :
      (now : ℕ) (v : T) (calls : List (ℕ × T)) (b : CircuitBreaker)
      → 0 < o.half_open_max_attempts
      → b.state ≡ CircuitBreakerState.open_
      → b.last_failure_time + o.reset_timeout_ms ≤ now
      → o.half_open_max_attempts ≤ length calls + 1
      → let b' = after {E = E} o b (successes ((now, v) ∷ calls)) in
        (b'.state ≡ CircuitBreakerState.closed) × (b'.failure_count ≡ 0)
  recovers now v calls b m p late enough =
      rw (execute_open now (ok v) b p late, after)
        (after-successes_half_open ((now, v) ∷ calls) _ refl m (omega arith))

  execute_closed :
      (now : ℕ) (e : E) (b : CircuitBreaker)
      → b.state ≡ CircuitBreakerState.closed
      → let b' = (execute {T = T} o now now (err e) none b).0 in
        (b.failure_count + 1 < o.failure_threshold
          → (b'.state ≡ CircuitBreakerState.closed) × (b'.failure_count ≡ b.failure_count + 1))
        × (o.failure_threshold ≤ b.failure_count + 1
            → (b'.state ≡ CircuitBreakerState.open_) × (b'.last_failure_time ≡ now))
  unfolding execute admit on_failure
  execute_closed now e b p = ground arith

  after-failures :
      (calls : List (ℕ × E)) (b : CircuitBreaker)
      → b.state ≡ CircuitBreakerState.closed
      → b.failure_count + length calls < o.failure_threshold
      → let b' = after {T = T} o b (failures calls) in
        (b'.state ≡ CircuitBreakerState.closed)
        × (b'.failure_count ≡ b.failure_count + length calls)
  after-failures [] b p l = (p, omega arith)
  after-failures ((now, e) ∷ calls) b p l =
      let (state, count) = (execute_closed now e b p).0 (omega arith) in
      let (state', count') = after-failures calls _ state (omega (arith, count)) in
      (state', omega (arith, count, count'))

  after-append :
      (xs ys : List (ℕ × Result E T)) (b : CircuitBreaker)
      → after o b (xs ++ ys) ≡ after o (after o b xs) ys
  after-append [] ys b = refl
  after-append (c ∷ xs) ys b = after-append xs ys _

  -- From a closed breaker with no failure counted, failing calls leave it closed while they are
  -- fewer than `failure_threshold`. The failing call that makes them as many opens it, and from
  -- then a call that starts before the timeout is over is not made, and changes nothing.
  pub trips :
      (calls : List (ℕ × E)) (now : ℕ) (e : E) (b : CircuitBreaker)
      → b.state ≡ CircuitBreakerState.closed
      → b.failure_count ≡ 0
      → (length calls < o.failure_threshold
          → (after {T = T} o b (failures calls)).state ≡ CircuitBreakerState.closed)
        × (length calls + 1 ≡ o.failure_threshold
            → let b' = after {T = T} o b (failures calls ++ (now, err e) ∷ []) in
              (b'.state ≡ CircuitBreakerState.open_)
              × ((start later : ℕ) (call : Result E T) (fallback : Option (Result E T))
                  → start < now + o.reset_timeout_ms
                  → ((execute o start later call fallback b').0 ≡ b')
                    × ((execute o start later call fallback b').1 ≡ false)))
  trips calls now e b p q = (
    λ few. (after-failures calls b p (omega arith)).0,
    λ full. rw (after-append (failures calls) ((now, err e) ∷ []) b) (
        let (state, count) = after-failures calls b p (omega arith) in
        let (opened, at) = (execute_closed now e _ state).1 (omega (arith, count)) in
        (
          opened,
          λ start later call fallback early.
              let refused =
                (execute_lem o start later call fallback _).0 (opened, omega (arith, at)) in
              (refused.0, refused.1),
        )),
  )
