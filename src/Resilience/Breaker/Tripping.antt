-- ===== src/Resilience/Breaker/Tripping.antt =====
-- When the breaker trips, what an open breaker does, and how it recovers.
use agents_protocol.Prelude.{
  ℕ, ◌+◌, ◌<◌, ◌≤◌, ◌≡◌, List, [], ◌∷◌, length, arith, leb, Bool-cases, inl, inr,
}
use agents_protocol.Resilience.Breaker.{
  CircuitBreaker, closed, opened, admit, on_success, on_failure, call, Attempt, returned, raised,
  result, failure, circuit_open,
}

-- One failure after the other, at the given times, with no success between them.
pub fail_all : List ℕ → CircuitBreaker → CircuitBreaker
fail_all [] b = b
fail_all (now ∷ times) b = fail_all times (on_failure now b)

fail_all-opened :
    (times : List ℕ) (b : CircuitBreaker) → b.state ≡ opened → (fail_all times b).state ≡ opened
unfolding fail_all
fail_all-opened [] b e = e
fail_all-opened (now ∷ times) b e =
    fail_all-opened times (on_failure now b) (unfold on_failure in ground arith)

fail_all-counts :
    (times : List ℕ) (b : CircuitBreaker)
    → b.state ≡ closed
    → b.failure_count < b.failure_threshold
    → (b.failure_count + length times < b.failure_threshold → (fail_all times b).state ≡ closed)
      × (b.failure_threshold ≤ b.failure_count + length times → (fail_all times b).state ≡ opened)
unfolding fail_all
fail_all-counts [] b e h = (λ _. e, λ k. absurd (omega arith))
fail_all-counts (now ∷ times) b e h =
    elim (Bool-cases (leb b.failure_threshold (b.failure_count + 1))) [
      | inl full ↦
          let o : (on_failure now b).state ≡ opened = unfold on_failure in ground arith in
          (λ k. absurd (ground arith), λ _. fail_all-opened times (on_failure now b) o)
      | inr room ↦
          let c : (on_failure now b).state ≡ closed = unfold on_failure in ground arith in
          let n : (on_failure now b).failure_count ≡ b.failure_count + 1 =
            unfold on_failure in ground arith in
          let t : (on_failure now b).failure_threshold ≡ b.failure_threshold =
            unfold on_failure in ground arith in
          let ih = fail_all-counts times (on_failure now b) c (ground arith) in
          (λ k. ih.0 (omega arith), λ k. ih.1 (omega arith))
    ]

-- A closed breaker with no failure counted stays closed for fewer failures in a row than its
-- threshold, and is open after as many as its threshold, or more.
pub trips_at_threshold :
    (times : List ℕ) (b : CircuitBreaker)
    → b.state ≡ closed
    → b.failure_count ≡ 0
    → 0 < b.failure_threshold
    → (length times < b.failure_threshold → (fail_all times b).state ≡ closed)
      × (b.failure_threshold ≤ length times → (fail_all times b).state ≡ opened)
trips_at_threshold times b e z p =
    let h = fail_all-counts times b e (omega arith) in
    (λ k. h.0 (omega arith), λ k. h.1 (omega arith))

module _ {ℓ} {S A E : Type ℓ} (now : ℕ) (clock : S → ℕ) (func : S → Attempt A E × S) where
  -- Until the recovery timeout is over, a call through an open breaker is refused: its function is
  -- not run, and neither the breaker nor the function's state changes.
  pub opened-rejects :
      (b : CircuitBreaker) (s : S)
      → b.state ≡ opened
      → now ≤ b.last_failure_time + b.recovery_timeout
      → call now clock func b s ≡ (circuit_open, b, s)
  unfolding call admit
  opened-rejects b s e h = ground arith

  -- After the recovery timeout, one call decides: if it returns the breaker is closed with no failure
  -- counted, and if it raises the breaker is open again, its timeout counted from that moment.
  pub recovery_decides :
      (b : CircuitBreaker) (s t : S)
      → b.state ≡ opened
      → b.last_failure_time + b.recovery_timeout < now
      → ((a : A)
          → func s ≡ (returned a, t)
          → call now clock func b s ≡ (result a, record b { state = closed; failure_count = 0 }, t))
        × ((x : E)
            → func s ≡ (raised x, t)
            → call now clock func b s ≡ (
              failure x,
              record b {
                state = opened;
                failure_count = b.failure_count + 1;
                last_failure_time = clock t;
              },
              t,
            ))
  unfolding call admit on_success on_failure
  recovery_decides b s t e h = (λ a f. ground arith, λ x f. ground arith)
