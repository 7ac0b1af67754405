-- ===== src/Resilience/Breaker.antt =====
-- `CircuitBreaker` of resilience.py. A call has two steps, since other calls may run while it
-- awaits its function: `admit` before the await, `on_success` or `on_failure` after it.
pub mod Invariant
pub mod Tripping
use agents_protocol.Prelude.{ℕ, ◌+◌, String, Bool, true, false, ltb, leb, if◌then◌else◌, ◌&&◌}

pub data CircuitState : Type 0 where
  closed opened half_open : CircuitState

pub record CircuitBreaker : Type 0 where
  pub name : String
  pub failure_threshold : ℕ
  pub recovery_timeout : ℕ
  pub state : CircuitState
  pub failure_count : ℕ
  pub last_failure_time : ℕ

-- `__init__`
abbrev pub new : (failure_threshold recovery_timeout : ℕ) → String → CircuitBreaker
new failure_threshold recovery_timeout name = record {
  name = name;
  failure_threshold = failure_threshold;
  recovery_timeout = recovery_timeout;
  state = closed;
  failure_count = 0;
  last_failure_time = 0;
}

abbrev pub is_closed : CircuitState → Bool
is_closed closed = true
is_closed _ = false

abbrev pub is_half_open : CircuitState → Bool
is_half_open half_open = true
is_half_open _ = false

abbrev pub is_open : CircuitState → Bool
is_open opened = true
is_open _ = false

-- `_on_success`, `record_success`
unfoldable pub on_success : CircuitBreaker → CircuitBreaker
on_success b =
    if is_half_open b.state
    then record b { state = closed; failure_count = 0 }
    else record b { failure_count = 0 }

-- `_on_failure`, `record_failure`, at the time `now`
unfoldable pub on_failure : ℕ → CircuitBreaker → CircuitBreaker
on_failure now b =
    let b' : CircuitBreaker = record b {
      failure_count = b.failure_count + 1;
      last_failure_time = now;
    } in
    if is_closed b.state && leb b.failure_threshold (b.failure_count + 1)
    then record b' { state = opened }
    else if is_half_open b.state
    then record b' { state = opened }
    else b'

-- The part of `call` before the await: the breaker after it, and whether the function is called.
-- `false` stands for the raise of `CircuitBreakerError`.
unfoldable pub admit : ℕ → CircuitBreaker → CircuitBreaker × Bool
admit now b =
    if is_open b.state
    then (if ltb (b.last_failure_time + b.recovery_timeout) now
        then (record b { state = half_open }, true)
        else (b, false))
    else (b, true)

-- What the awaited function did: its value, or its exception.
pub data Attempt {ℓ} (A : Type ℓ) (E : Type ℓ) : Type ℓ where
  returned : A → Attempt A E
  raised : E → Attempt A E

-- How `call` ends.
pub data Answer {ℓ} (A : Type ℓ) (E : Type ℓ) : Type ℓ where
  result : A → Answer A E
  failure : E → Answer A E
  circuit_open : Answer A E

module _ {ℓ} {S A E : Type ℓ} where
  -- The part of `call` after the await, `later` being the time then.
  unfoldable pub settle : ℕ → CircuitBreaker → Attempt A E × S → Answer A E × CircuitBreaker × S
  settle later b (returned a, s) = (result a, on_success b, s)
  settle later b (raised e, s) = (failure e, on_failure later b, s)

  -- `call` with nothing else running in between. The function acts on a state of its own, and its
  -- end's time is read from there.
  unfoldable pub call :
      ℕ → (S → ℕ) → (S → Attempt A E × S) → CircuitBreaker → S → Answer A E × CircuitBreaker × S
  unfolding settle
  call now clock func b s =
      let after = admit now b in
      if after.1
      then (let out = func s in settle (clock out.1) after.0 out)
      else (circuit_open, after.0, s)
