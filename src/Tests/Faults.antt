-- ===== src/Tests/Faults.antt =====
-- Circuit breakers, retries and cluster peers.
use agents_protocol.Prelude.{
  ℕ, String, ◌+◌, ◌≤◌, ◌≡◌, ◌⊎◌, ◌≢◌, ◌==◌, eq_iff, refl, true, false, none, some, List, [], ◌∷◌,
  ◌++◌, map, length, pos, arith, ◌↔◌, IsNodup,
}
use agents_protocol.Dict
use agents_protocol.Resilience.Breaker
use agents_protocol.Resilience.Breaker.{
  CircuitBreaker, closed, opened, Attempt, returned, raised, result, failure, circuit_open, call,
  on_failure,
}
use agents_protocol.Resilience.Breaker.Invariant.{here, next, fails, IsSound, Reach-IsSound}
use agents_protocol.Resilience.Retry.{RetryPolicy, Run, value, failed, retries, rounds, execute}
use agents_protocol.Resilience.Retry.Bounds.{AllWithin, execute_bounds}
use agents_protocol.Resilience.Retry.Outcomes.{scripted, execute_outcomes}
use agents_protocol.Cluster
use agents_protocol.Cluster.{
  ClusterNodeInfo, Network, ClusterPeer, ClusterManager, new_peer, response, forward_message,
  add_peer, register_remote_agent, get_peer_for_agent, prune, is_stale, stale_nodes,
}
use agents_protocol.Cluster.Pruning.{IsHeard, prune-removes}

abbrev fresh : CircuitBreaker
fresh = Breaker.new 3 60 "b"

Reach-IsSound_example : IsSound 3 60 (on_failure 5 fresh)
Reach-IsSound_example = Reach-IsSound 3 60 "b" (omega arith) (next here (fails fresh 5))

-- The state counts the calls.
abbrev answering : ℕ → Attempt ℕ ℕ × ℕ
answering s = (returned 7, s + 1)

-- Two retries, of every exception.
abbrev twice : RetryPolicy ℕ
twice = record {
  max_retries = pos 2;
  base_delay = 10;
  max_delay = 15;
  exponential_base = 2;
  jitter = true;
  retry_on = (λ e. true) ∷ [];
}

execute_bounds_example :
    let r = execute twice (λ k. 999) (λ d s. s + d) answering 0 in
    (r.calls ≤ rounds twice.max_retries)
    × ((r.calls ≡ length r.sleeps) ⊎ (r.calls ≡ length r.sleeps + 1))
    × AllWithin twice.max_delay r.sleeps
execute_bounds_example =
    execute_bounds twice (λ k. 999) (λ d s. s + d) answering (λ k. omega arith) 0

execute_outcomes_example :
    ((a : ℕ)
      → let r : Run (List (Attempt ℕ ℕ)) ℕ ℕ =
          execute twice
            (λ k. 0)
            (λ d t. t)
            (scripted (raised 0))
            (map raised (1 ∷ 2 ∷ []) ++ returned a ∷ []) in
        (r.ending ≡ value a) × (r.calls ≡ 3) × (r.state ≡ []))
    × ((e : ℕ)
        → (retries twice e ≡ false) ⊎ ◌≡◌ {A = ℕ} 2 2
        → let r : Run (List (Attempt ℕ ℕ)) ℕ ℕ =
            execute twice
              (λ k. 0)
              (λ d t. t)
              (scripted (raised 0))
              (map raised (1 ∷ 2 ∷ []) ++ raised e ∷ []) in
          (r.ending ≡ failed e) × (r.calls ≡ 3) × (r.state ≡ []))
unfolding retries
execute_outcomes_example =
    execute_outcomes twice (λ k. 0) (raised 0) 2 refl (1 ∷ 2 ∷ []) [] (refl, (refl, tt))
      (omega arith)

abbrev node : ClusterNodeInfo
node = record {
  node_id = "n1";
  endpoint = "http://10.0.0.2:8080";
  capabilities = [];
  last_seen = 5;
}

abbrev alone : ClusterManager
alone = Cluster.new (some "n0") "u" none

differ : (a b : String) → (a == b) ≡ false → a ≢ b
differ a b h = λ e. ground (arith, eq_iff a b)

two-IsNodup : (x y : String) → (x == y) ≡ false → IsNodup (x ∷ y ∷ [])
two-IsNodup x y h = λ a. ground (arith, eq_iff x a, eq_iff y a, differ x y h)

-- A peer that was silent for a minute and one that was not, each with an agent.
abbrev meshed : ClusterManager
meshed = record alone {
  peers =
      ("n1", new_peer node 0)
      ∷ ("n2", new_peer (record node { node_id = "n2"; last_seen = 50000 }) 0)
      ∷ [];
  remote_agents = ("planner", "n1") ∷ ("scout", "n2") ∷ [];
}

prune-removes_example :
    ((k : String) (p : ClusterPeer)
      → (Dict.get k (prune 60005 meshed).peers ≡ some p)
        ↔ ((Dict.get k meshed.peers ≡ some p) × (60005 ≤ p.node_info.last_seen + 30000)))
    × ((a n : String)
        → (Dict.get a (prune 60005 meshed).remote_agents ≡ some n)
          ↔ ((Dict.get a meshed.remote_agents ≡ some n) × IsHeard 60005 n meshed.peers))
prune-removes_example =
    prune-removes 60005 meshed (two-IsNodup "n1" "n2" refl) (two-IsNodup "planner" "scout" refl)
