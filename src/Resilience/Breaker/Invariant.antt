-- ===== src/Resilience/Breaker/Invariant.antt =====
-- The breaker under any interleaving of calls: a relation on breakers, and what holds of every
-- breaker that it reaches.
use agents_protocol.Prelude.{ℕ, String, ◌<◌, ◌≡◌, refl, arith}
use agents_protocol.Resilience.Breaker.{CircuitBreaker, closed, new, admit, on_success, on_failure}

-- One step of some task: a call that begins at `now`, or one that ends, well or badly. Any order of
-- these steps is possible, as other calls begin and end while one awaits its function.
pub data Step : CircuitBreaker → CircuitBreaker → Type 0 where
  begins : (b : CircuitBreaker) (now : ℕ) → Step b (admit now b).0
  succeeds : (b : CircuitBreaker) → Step b (on_success b)
  fails : (b : CircuitBreaker) (now : ℕ) → Step b (on_failure now b)

pub data Reach (b : CircuitBreaker) : CircuitBreaker → Type 0 where
  here : Reach b b
  next : {c d : CircuitBreaker} → Reach b c → Step c d → Reach b d

pub record IsSound (threshold timeout : ℕ) (b : CircuitBreaker) : Type 0 where
  pub threshold_kept : b.failure_threshold ≡ threshold
  pub timeout_kept : b.recovery_timeout ≡ timeout
  pub room : b.state ≡ closed → b.failure_count < b.failure_threshold

Step-IsSound : {t r : ℕ} {b c : CircuitBreaker} → 0 < t → Step b c → IsSound t r b → IsSound t r c
unfolding admit on_success on_failure
Step-IsSound p (begins b now) h = record {
  threshold_kept = ground (arith, h.threshold_kept);
  timeout_kept = ground (arith, h.timeout_kept);
  room = λ e. ground (arith, h.room);
}
Step-IsSound p (succeeds b) h = record {
  threshold_kept = ground (arith, h.threshold_kept);
  timeout_kept = ground (arith, h.timeout_kept);
  room = λ e. ground (arith, h.threshold_kept);
}
Step-IsSound p (fails b now) h = record {
  threshold_kept = ground (arith, h.threshold_kept);
  timeout_kept = ground (arith, h.timeout_kept);
  room = λ e. ground (arith, h.room);
}

-- From a new breaker with a positive threshold, whatever calls begin and end in whatever order: the
-- settings stay, and while the breaker is closed it has counted fewer failures than its threshold.
pub Reach-IsSound :
    (t r : ℕ) (n : String) {b : CircuitBreaker} → 0 < t → Reach (new t r n) b → IsSound t r b
Reach-IsSound t r n p here = record { threshold_kept = refl; timeout_kept = refl; room = λ e. p }
Reach-IsSound t r n p (next x s) = Step-IsSound p s (Reach-IsSound t r n p x)
