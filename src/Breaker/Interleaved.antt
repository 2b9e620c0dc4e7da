-- ===== src/Breaker/Interleaved.antt =====
-- Calls that overlap: any order of starts, refusals, successes and failures.
use project_task_cashbook_ba.Base.{ℕ, ◌+◌, ◌<◌, ◌-◌, ◌≡◌, some, arith}
use project_task_cashbook_ba.Breaker.{
  CircuitBreakerState, CircuitBreakerOptions, CircuitBreaker, fresh, admit, on_success, on_failure,
}

-- The breaker, the clock, and the calls that are awaited.
pub record System : Type 0 where
  pub breaker : CircuitBreaker
  pub clock : ℕ
  pub in_flight : ℕ

pub data Step (o : CircuitBreakerOptions) (s : System) (t : System) : Type 0 where
  tick : (n : ℕ) → t ≡ record s { clock = s.clock + n } → Step o s t
  start :
      (b : CircuitBreaker)
      → admit o s.clock s.breaker ≡ some b
      → t ≡ record s { breaker = b; in_flight = s.in_flight + 1 }
      → Step o s t
  succeed :
      0 < s.in_flight
      → t
        ≡ record { breaker = on_success o s.breaker; clock = s.clock; in_flight = s.in_flight - 1 }
      → Step o s t
  fail :
      0 < s.in_flight
      → t ≡ record {
        breaker = on_failure o s.clock s.breaker;
        clock = s.clock;
        in_flight = s.in_flight - 1;
      }
      → Step o s t

pub data Reach (o : CircuitBreakerOptions) : System → Type 0 where
  here : (now : ℕ) → Reach o (record { breaker = fresh; clock = now; in_flight = 0 })
  next : {s t : System} → Reach o s → Step o s t → Reach o t

-- The limits that the options set.
pub record IsWithin (o : CircuitBreakerOptions) (b : CircuitBreaker) : Type 0 where
  pub closed_below : b.state ≡ CircuitBreakerState.closed → b.failure_count < o.failure_threshold
  pub half_open_below :
      b.state ≡ CircuitBreakerState.half_open → b.half_open_attempts < o.half_open_max_attempts

module _ (o : CircuitBreakerOptions) (t : 0 < o.failure_threshold)
    (m : 0 < o.half_open_max_attempts) where
  admit-IsWithin :
      (now : ℕ) (b b' : CircuitBreaker) → IsWithin o b → admit o now b ≡ some b' → IsWithin o b'
  unfolding admit
  admit-IsWithin now b b' h e = record {
    closed_below = λ q. ground arith;
    half_open_below = λ q. ground arith;
  }

  on_success-IsWithin : (b : CircuitBreaker) → IsWithin o b → IsWithin o (on_success o b)
  unfolding on_success
  on_success-IsWithin b h = record {
    closed_below = λ q. ground arith;
    half_open_below = λ q. ground arith;
  }

  on_failure-IsWithin :
      (now : ℕ) (b : CircuitBreaker) → IsWithin o b → IsWithin o (on_failure o now b)
  unfolding on_failure
  on_failure-IsWithin now b h = record {
    closed_below = λ e. ground arith;
    half_open_below = λ e. ground arith;
  }

  Step-IsWithin : (s t' : System) → Step o s t' → IsWithin o s.breaker → IsWithin o t'.breaker
  Step-IsWithin s u (tick n e) h = rw e h
  Step-IsWithin s u (start b p e) h = rw e (admit-IsWithin s.clock s.breaker b h p)
  Step-IsWithin s u (succeed p e) h = rw e (on_success-IsWithin s.breaker h)
  Step-IsWithin s u (fail p e) h = rw e (on_failure-IsWithin s.clock s.breaker h)

  -- However calls overlap, a closed breaker has seen fewer failures in a row than the threshold,
  -- and a half-open one has counted fewer successes than it waits for (both options above zero).
  pub Reach-IsWithin : {s : System} → Reach o s → IsWithin o s.breaker
  Reach-IsWithin (here now) = record { closed_below = λ q. t; half_open_below = λ q. cc }
  Reach-IsWithin (next r st) = Step-IsWithin _ _ st (Reach-IsWithin r)
