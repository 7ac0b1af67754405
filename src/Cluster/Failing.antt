-- ===== src/Cluster/Failing.antt =====
-- What becomes of a forward whose calls all raise.
use agents_protocol.Prelude.{
  ℕ, zero, suc, ◌+◌, ◌≡◌, refl, Bool, true, false, Option, none, some, arith,
}
use agents_protocol.Protocol.{AgentMessage}
use agents_protocol.Resilience.Breaker.{
  CircuitBreaker, Attempt, raised, returned, call, admit, settle,
}
use agents_protocol.Resilience.Retry.{
  RetryPolicy, Ending, value, failed, no_attempt, execute, loop, after_call, give_up, rounds, Run,
  delay,
}
use agents_protocol.Cluster.Peer.{
  ForwardError, Network, ClusterPeer, as_attempt, as_success, forward_once, attempts,
  forward_with_retries, forward_message,
}

-- Whether the retried function returned.
abbrev pub has_value : {A E : Type 0} → Ending A E → Bool
has_value (value a) = true
has_value (failed e) = false
has_value no_attempt = false

-- In the states of `I`, the function raises and leaves such a state.
abbrev pub Raises : {S A E : Type 0} → (S → Type 0) → (S → Attempt A E × S) → Type 0
Raises {S} {A} {E} I func = (s : S) → I s → (e : E) × ((func s).0 ≡ raised e) × I (func s).1

module _ {S A E : Type 0} (p : RetryPolicy E) (draw : ℕ → ℕ) (sleep : ℕ → S → S)
    (func : S → Attempt A E × S) (I : S → Type 0)
    (asleep : (d : ℕ) (s : S) → I s → I (sleep d s)) where
  after_call-raised :
      (rest : ℕ → Option E → S → Run S A E) (attempt : ℕ) (e : E) (x : Attempt A E × S)
      → x.0 ≡ raised e
      → I x.1
      → ((n : ℕ) (last : Option E) (s : S) → I s → has_value (rest n last s).ending ≡ false)
      → has_value (after_call p draw sleep func rest attempt x).ending ≡ false
  unfolding after_call give_up
  after_call-raised rest attempt e (returned a, s) k i h = absurd (cc k)
  after_call-raised rest attempt e (raised d, s) k i h =
      let t = delay p attempt (draw attempt) in
      ground (arith, h (attempt + 1) (some d) (sleep t s) (asleep t s i))

  loop-after_call :
      (left attempt : ℕ) (last : Option E) (s : S)
      → has_value
          (after_call p draw sleep func (loop p draw sleep func left) attempt (func s)).ending
        ≡ false
      → has_value (loop p draw sleep func (suc left) attempt last s).ending ≡ false
  unfolding loop
  loop-after_call left attempt last s h = h

  loop-Raises :
      (left attempt : ℕ) (last : Option E) (s : S)
      → Raises I func
      → I s
      → has_value (loop p draw sleep func left attempt last s).ending ≡ false
  loop-Raises zero attempt none s h i = unfold loop give_up in refl
  loop-Raises zero attempt (some e) s h i = unfold loop give_up in refl
  loop-Raises (suc left) attempt last s h i =
      let (e, k, j) = h s i in
      let ih : (n : ℕ) (o : Option E) (t : S)
          → I t
          → has_value (loop p draw sleep func left n o t).ending ≡ false =
        λ n o t l. loop-Raises left n o t h l in
      loop-after_call left attempt last s
        (after_call-raised (loop p draw sleep func left) attempt e (func s) k j ih)

-- What does not end with a value is no success.
as_success-settle :
    {S : Type 0} (later : ℕ) (b : CircuitBreaker) (x : Ending Bool ForwardError) (s : S)
    → has_value x ≡ false
    → as_success (settle later b (as_attempt x, s)).0 ≡ false
unfolding settle
as_success-settle later b (value a) s h = absurd (cc h)
as_success-settle later b (failed e) s h = refl
as_success-settle later b no_attempt s h = refl

-- A forward whose calls raise in the states of `I`, which a sleep does not leave, answers false.
pub forward_message-fails :
    {S : Type 0} (net : Network S) (p : ClusterPeer) (m : AgentMessage) (I : S → Type 0)
    → ((d : ℕ) (s : S) → I s → I (net.sleep d s))
    → (s : S) → I s
    → Raises I (forward_once net p m)
    → (forward_message net m p s).0 ≡ false
forward_message-fails net p m I asleep s i h =
    let run = attempts net p m s in
    let k : has_value run.ending ≡ false =
      unfold attempts execute in
      loop-Raises p.retry_policy net.draw net.sleep (forward_once net p m) I asleep
        (rounds p.retry_policy.max_retries) 0 none s h i in
    let r =
      as_success-settle (net.time run.state) (admit (net.time s) p.circuit_breaker).0 run.ending
        run.state k in
    unfold forward_message call forward_with_retries in ground (arith, r)
