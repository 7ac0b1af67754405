-- ===== src/Resilience/Retry/Bounds.antt =====
-- How often `execute` calls its function and how long it sleeps, whatever the function does.

use agents_protocol.Prelude.{
  ℕ, zero, suc, ◌+◌, ◌*◌, ◌^◌, ◌≤◌, ◌<◌, ◌≡◌, refl, Option, none, some, List, [], ◌∷◌, length,
  arith, ◌⊎◌, inl, inr, min, ◌/◌,
}
use agents_protocol.Resilience.Breaker.{Attempt, returned, raised}
use agents_protocol.Resilience.Retry.{
  RetryPolicy, base_wait, delay, rounds, Run, after_call, loop, execute,
}

-- Every delay of the list is at most one and a half times the bound.
abbrev pub AllWithin : ℕ → List ℕ → Type 0
AllWithin bound [] = Unit {0}
AllWithin bound (d ∷ ds) = (d * 2 ≤ bound * 3) × AllWithin bound ds

jitter-le : (m draw : ℕ) → draw < 1000 → m * (500 + draw) / 1000 * 2 ≤ m * 3
jitter-le m draw h = let k : m * (500 + draw) ≤ m * 1500 = grind arith in omega arith

delay-within :
    {E : Type 0} (p : RetryPolicy E) (attempt draw : ℕ)
    → draw < 1000
    → delay p attempt draw * 2 ≤ p.max_delay * 3
unfolding delay base_wait
delay-within p attempt draw h =
    ground (arith, jitter-le (min p.max_delay (p.base_delay * p.exponential_base ^ attempt)) draw h)

module _ {S A E : Type 0} (p : RetryPolicy E) (draw : ℕ → ℕ) (sleep : ℕ → S → S)
    (func : S → Attempt A E × S) (draws : (k : ℕ) → draw k < 1000) where
  -- What the loop with `left` rounds to go does at most.
  record IsBounded (left : ℕ) (r : Run S A E) : Type 0 where
    calls_at_most : r.calls ≤ left
    between : (r.calls ≡ length r.sleeps) ⊎ (r.calls ≡ length r.sleeps + 1)
    within : AllWithin p.max_delay r.sleeps

  after_call-IsBounded :
      (left : ℕ) (rest : ℕ → Option E → S → Run S A E) (attempt : ℕ) (o : Attempt A E × S)
      → ((k : ℕ) (l : Option E) (t : S) → IsBounded left (rest k l t))
      → IsBounded (suc left) (after_call p draw sleep func rest attempt o)
  unfolding after_call
  after_call-IsBounded left rest attempt (returned a, s) h = record {
    calls_at_most = omega arith;
    between = inr refl;
    within = tt;
  }
  after_call-IsBounded left rest attempt (raised e, s) h =
      let d = delay p attempt (draw attempt) in
      let ih = h (attempt + 1) (some e) (sleep d s) in
      let w = delay-within p attempt (draw attempt) (draws attempt) in
      record {
        calls_at_most = ground (arith, ih.calls_at_most);
        between = ground (arith, ih.between);
        within = ground (arith, ih.within, w);
      }

  loop-IsBounded :
      (left attempt : ℕ) (last : Option E) (s : S)
      → IsBounded left (loop p draw sleep func left attempt last s)
  unfolding loop
  loop-IsBounded zero attempt last s = record {
    calls_at_most = omega arith;
    between = inl refl;
    within = tt;
  }
  loop-IsBounded (suc left) attempt last s =
      after_call-IsBounded left (loop p draw sleep func left) attempt (func s)
        λ k l t. loop-IsBounded left k l t

  -- Let each random draw be below 1000. Whatever the function does, it is called at most
  -- `max_retries + 1` times, there are as many sleeps as calls or one less, and each sleep is at most
  -- one and a half times `max_delay`.
  pub execute_bounds :
      (s : S)
      → let r = execute p draw sleep func s in
        (r.calls ≤ rounds p.max_retries)
        × ((r.calls ≡ length r.sleeps) ⊎ (r.calls ≡ length r.sleeps + 1))
        × AllWithin p.max_delay r.sleeps
  unfolding execute
  execute_bounds s =
      let h = loop-IsBounded (rounds p.max_retries) 0 none s in
      (h.calls_at_most, h.between, h.within)
