-- ===== src/Resilience/Retry.antt =====
-- `RetryPolicy` and `TimeoutManager` of resilience.py. The retried function acts on a state of its
-- own, and the trace lists the delays that are slept. The exponential base is a whole number, as
-- the default 2.0 is, and a draw of the jitter is the number of thousandths it stands for.
pub mod Bounds
pub mod Outcomes
use agents_protocol.Prelude.{
  ℕ, zero, suc, ◌+◌, ◌*◌, ◌/◌, ◌^◌, min, Bool, true, false, Option, none, some, List, [], ◌∷◌, any,
  ℤ, pos, negsuc, eqb, ltb, or_else, if◌then◌else◌,
}
use agents_protocol.Resilience.Breaker.{Attempt, returned, raised}

pub record RetryPolicy (E : Type 0) : Type 0 where
  pub max_retries : ℤ
  pub base_delay : ℕ
  pub max_delay : ℕ
  pub exponential_base : ℕ
  pub jitter : Bool
  -- each entry is `isinstance` for one of the exception types
  pub retry_on : List (E → Bool)

-- `range(self.max_retries + 1)`: how many attempts there are
unfoldable pub rounds : ℤ → ℕ
rounds (pos n) = n + 1
rounds (negsuc n) = 0

module _ {E : Type 0} where
  -- `min(max_delay, base_delay * exponential_base ** attempt)`
  unfoldable pub base_wait : RetryPolicy E → ℕ → ℕ
  base_wait p attempt = min p.max_delay (p.base_delay * p.exponential_base ^ attempt)

  -- the delay with the jitter: times 0.5 + draw / 1000
  unfoldable pub delay : RetryPolicy E → ℕ → ℕ → ℕ
  unfolding base_wait
  delay p attempt draw =
      if p.jitter then base_wait p attempt * (500 + draw) / 1000 else base_wait p attempt

  unfoldable pub retries : RetryPolicy E → E → Bool
  retries p e = any (λ is. is e) p.retry_on

-- How `execute` ends: with a value, with an exception of the function, or with the exception that it
-- raises itself if there was no attempt.
pub data Ending {ℓ} (A E : Type ℓ) : Type ℓ where
  value : A → Ending A E
  failed : E → Ending A E
  no_attempt : Ending A E

-- `if last_exception: raise last_exception`, and the raise after it
unfoldable pub give_up {ℓ} : {A E : Type ℓ} → Option E → Ending A E
give_up none = no_attempt
give_up (some e) = failed e

-- `attempt == self.max_retries`
unfoldable pub is_last : ℤ → ℕ → Bool
is_last (pos n) attempt = eqb attempt n
is_last (negsuc n) attempt = false

-- What `execute` does: its ending, the function's state after it, the number of calls of the
-- function and the delays that are slept, in order.
pub record Run (S A E : Type 0) : Type 0 where
  pub ending : Ending A E
  pub state : S
  pub calls : ℕ
  pub sleeps : List ℕ

-- `draw` gives the random draw of each attempt, `func` is the function that is retried, and `sleep`
-- says what `asyncio.sleep` does to the state (the clock moves, other tasks run).
module _ {S A E : Type 0} (p : RetryPolicy E) (draw : ℕ → ℕ) (sleep : ℕ → S → S)
    (func : S → Attempt A E × S) where
  abbrev called : Ending A E → S → Run S A E
  called x s = record { ending = x; state = s; calls = 1; sleeps = [] }

  abbrev slept : ℕ → Run S A E → Run S A E
  slept d r = record r { calls = r.calls + 1; sleeps = d ∷ r.sleeps }

  -- The body of the loop after the call; `rest` is the rest of the loop.
  unfoldable pub after_call : (ℕ → Option E → S → Run S A E) → ℕ → Attempt A E × S → Run S A E
  unfolding retries is_last delay give_up
  after_call rest attempt (returned a, s) = called (value a) s
  after_call rest attempt (raised e, s) =
      if retries p e
      then (if is_last p.max_retries attempt
          then called (give_up (some e)) s
          else (let d = delay p attempt (draw attempt) in
              slept d (rest (attempt + 1) (some e) (sleep d s))))
      else called (failed e) s

  -- `left` rounds of the loop from `attempt` on, with the exception seen last
  unfoldable pub loop : ℕ → ℕ → Option E → S → Run S A E
  unfolding after_call
  loop zero attempt last s = record { ending = give_up last; state = s; calls = 0; sleeps = [] }
  loop (suc left) attempt last s = after_call (loop left) attempt (func s)

  unfoldable pub execute : S → Run S A E
  unfolding loop rounds
  execute s = loop (rounds p.max_retries) 0 none s

-- `run_with_timeout`: the function ends by itself after `duration`, or is cancelled when the time is
-- over, and `asyncio.TimeoutError` is raised.
pub data Timed {ℓ} (A : Type ℓ) : Type ℓ where
  in_time : A → Timed A
  timed_out : ℕ → Timed A

unfoldable pub run_with_timeout {ℓ} :
    {A : Type ℓ} → (default_timeout : ℕ) → (duration : ℕ) → A → Option ℕ → Timed A
run_with_timeout default_timeout duration a timeout =
    let t = or_else timeout default_timeout in if ltb duration t then in_time a else timed_out t
